-- ===== src/Menu.antt =====
-- src/core/menu.rs: the menu tree, what its rows do, and where a front end stands in it.
pub mod Nav
pub mod Items
pub mod Levels
pub mod Choices
pub mod Activate
pub mod Cursor
pub mod Valid
