-- ===== src/Tests.antt =====
-- Runs of the definitions, and each theorem at an input that exercises the code.
mod Data
mod Cluster
mod Clock
mod Filters
mod Followed
mod Queries
mod Hooks
mod Forms
mod Shell
mod Pages
mod Dialogs
mod Passwords
mod Screens
mod Sizes
mod Grid
