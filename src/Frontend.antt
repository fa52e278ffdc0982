-- ===== src/Frontend.antt =====
-- src/frontends/systemverilog/uhdm_common_frontend.cc and uhdm_surelog_ast_frontend.cc: the commands
-- that set defines and default options, and the command that reads a design.
pub mod Defaults
pub mod Defines
pub mod Options
pub mod Read
mod Tests
