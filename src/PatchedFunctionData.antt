-- ===== src/PatchedFunctionData.antt =====
-- source/PatchedFunctionData.cpp, in parts: making and destroying a patch's data, finding the
-- address of the function, the test for the title, and the code that a patch generates.
pub mod Make
pub mod Address
pub mod Title
pub mod Jumps
pub mod Trampoline
pub mod ProcessCheck
pub mod Execution
pub mod Original
pub mod InMemory
pub mod Buffers
pub mod Request
pub mod Versions
pub mod Titles
