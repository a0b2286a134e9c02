-- ===== src/Content.antt =====
-- The catalogue of the site: a module for each kind of content, with its repository
-- (app/infrastructure/repositories) and its use cases (app/application/use_cases).
pub mod Tables
pub mod Technologies
pub mod Projects
pub mod Articles
pub mod Clients
pub mod Testimonials
pub mod CaseStudies
pub mod Services
pub mod ServiceLines
pub mod Company
pub mod Contact
pub mod Partners
pub mod Products
pub mod TeamMembers
