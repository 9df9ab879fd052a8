-- ===== src/Web.antt =====
-- web/app/lib: the parts of the web application that decide without the browser.
pub mod RealtimeReconnect
pub mod AnnotationOutbox
pub mod AnnotationQueue
