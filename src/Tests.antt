-- ===== src/Tests.antt =====
-- Concrete inputs at which the theorems of the library apply.
mod Data
mod Services
mod Configurations
mod Loaders
mod Patterns
mod Arrays
mod Widgets
mod Clients
mod Cards
mod Choices
mod Pages
