-- ===== src/Post.antt =====
-- myserver/src/protocol/http/http_data_read.cpp and the chunks of http_data_handler.cpp: the body of
-- a request, contiguous or in chunks, and the body of an answer in chunks.
pub mod Streams
pub mod Reader
pub mod Chunked
pub mod Flow
pub mod Smooth
pub mod Ends
pub mod Writer
pub mod Digits
pub mod Lines
pub mod Data
pub mod Chunks
pub mod RoundTrip
pub mod Sender
pub mod Body
pub mod BodyLaws
pub mod BodyStored
pub mod BodyBound
pub mod Received
pub mod Refused
mod Tests
