-- ===== src/Tests.antt =====
-- Runs at fixed inputs, and the theorems applied at concrete inputs.
mod CircBuf
mod HttpMessage
mod HttpParser
mod ThreadPool
mod TcpClient
mod Url
mod HttpServer
mod Thread
mod HeaderLine
mod ListHead
mod RoundTrip
mod Tracking
