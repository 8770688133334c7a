-- ===== src/Gui/Window.antt =====
-- gui/src/mainwindow.h and mainwindow.cpp: the window of the desktop client.
pub mod State
pub mod Slots
pub mod View
pub mod Refines
pub mod Follows
pub mod Clicks
