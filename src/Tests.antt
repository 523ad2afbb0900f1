-- ===== src/Tests.antt =====
-- Runs of the model at concrete inputs, and the theorems at inputs that meet their hypotheses.
pub mod Data
pub mod ObjectTests
pub mod HashTests
pub mod SpaceTests
pub mod MachineTests
pub mod LoaderTests
pub mod NativeTests
pub mod EnvTests
pub mod PoolTests
pub mod CollectorTests
pub mod InterpTests
pub mod FaslTests
pub mod StringTests
pub mod ListTests
pub mod GcTests
pub mod NameTests
pub mod PrintTests
pub mod ModuleTests
pub mod LibraryTests
