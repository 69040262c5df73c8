-- ===== src/Web.antt =====
-- MotorDriver/httpd.c and webpages.c: the web server that takes the driver's orders.
pub mod State
pub mod Accept
pub mod GetLine
pub mod Pages
pub mod File
pub mod Cgi
pub mod Request
pub mod Startup
mod Tests
