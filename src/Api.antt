-- ===== src/Api.antt =====
-- The HTTP interface: app/api and app/schemas, a module for each router.
pub mod Http
pub mod Technologies
pub mod Clients
pub mod Partners
pub mod Testimonials
pub mod CaseStudies
pub mod Services
pub mod ServiceLines
pub mod Products
pub mod TeamMembers
pub mod Company
pub mod Projects
pub mod Articles
pub mod Auth
pub mod Contact
pub mod Responses
pub mod Requests
pub mod Access
pub mod Payloads
pub mod RoundTrip
