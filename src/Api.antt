-- ===== src/Api.antt =====
-- internal/api: the task pipeline, the handlers and the authentication of the HTTP server.
pub mod Response
pub mod Server
pub mod Pages
pub mod TaskService
pub mod Tasks
pub mod Events
pub mod Skills
pub mod Listing
pub mod Auth
pub mod Lifecycle
pub mod Probes
pub mod Routes
pub mod Middleware
