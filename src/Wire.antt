-- ===== src/Wire.antt =====
-- BinaryReader.h, BinaryReader.cpp and the framing of TcpSession::Send: the byte format of the
-- messages. A byte is a number below 256; a word is kept modulo its width.
pub mod Words
pub mod Writer
pub mod Reader
pub mod Length
pub mod RoundTrip
pub mod Frame
mod Tests
