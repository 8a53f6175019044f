-- ===== src/Sockets.antt =====
-- The input and output helpers of sockets/: read_line.c, read_line_buf.c and rdwrn.c.
pub mod ReadLine
pub mod ReadLineBuf
pub mod Transfer
mod Tests
