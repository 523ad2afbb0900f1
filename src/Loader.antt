-- ===== src/Loader.antt =====
-- The loader of compiled modules, vm/module.c. `Loader/Code.antt` reads bytes, `Loader/Parse.antt`
-- is the loop of `module_parse` over the functions, `Loader/Fasl.antt` its constants,
-- `Loader/Module.antt` the whole of it, and the other children have the laws.
pub mod Code
pub mod Parse
pub mod Layout
pub mod Bounds
pub mod Debug
pub mod Fasl
pub mod Module
