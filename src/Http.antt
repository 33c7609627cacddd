-- ===== src/Http.antt =====
-- internal/httpapi: the HTTP boundary of the services. A handler is a function of a request and a state;
-- the matching of a path by the standard library's ServeMux gives a `Route` (Http.Server).
pub mod Message
pub mod Principal
pub mod Nodes
pub mod Uploads
pub mod Quarantine
pub mod Middleware
pub mod Server
pub mod Anonymous
pub mod Token
pub mod Published
pub mod Created
