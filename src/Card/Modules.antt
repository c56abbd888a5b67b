-- ===== src/Card/Modules.antt =====
-- component/embeddable/module/ModuleCard.tsx: what the card of a module shows and offers, and when
-- its dialogs open.
mod Views
mod Defs
pub mod Menus
pub mod Attributes
pub mod Dialogs
unfoldable pub use Views.*
unfoldable pub use Defs.*
