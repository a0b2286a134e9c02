-- ===== src/Api/Access.antt =====
-- The admin routers and the guards, for a caller without access: a module for each router.
pub mod Guards
pub mod Projects
pub mod Technologies
pub mod Services
pub mod Articles
pub mod CaseStudies
pub mod Company
pub mod ServiceLines
pub mod Clients
pub mod Partners
pub mod Testimonials
pub mod Products
pub mod TeamMembers
pub mod Requests
