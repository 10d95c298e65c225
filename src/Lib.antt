-- ===== src/Lib.antt =====
-- A model of the FunctionPatcherModule for the Wii U, a module of the homebrew environment that
-- replaces functions of the console's libraries and of running titles, and theorems about it.
--
-- The program. A caller hands `FPAddFunctionPatch` (source/export.cpp) a description of a function
-- and of its replacement. `PatchedFunctionData` (source/PatchedFunctionData.cpp) keeps what is known
-- of one patch: it takes two buffers from a heap that branches can reach, finds the function's
-- address, decides whether the running title is meant, and generates two pieces of PowerPC code, the
-- trampoline that the function's first word branches to and the jump back to the original. The
-- address comes from the table of library handles (source/FunctionAddressProvider.cpp) and, before
-- the loader is up, from the symbol tables in the kernel's memory
-- (source/utils/KernelFindExport.cpp). `PatchFunction` and `RestoreFunction`
-- (source/function_patcher.cpp) write the branch and put the replaced word back, on every core
-- (source/utils/CThread.h). The hooks (source/main.cpp) apply the patches as titles start and
-- libraries are loaded, and clear the flag of those that are gone from memory.
--
-- The files, and the code that each models:
--   Base          names and lemmas on Booleans, lists, texts and bits that the others share
--   Platform      the console's services as parameters, `OSFatal`, the library names of
--                 source/FunctionAddressProvider.h
--   Elf           the structures of source/utils/KernelFindExport.h, in Elf.Layout as they lie in
--                 memory, at the offsets that the header checks
--   Patch         the class of source/PatchedFunctionData.h, and the globals of
--                 source/utils/globals.cpp as one record `State`
--   KernelFindExport, FunctionAddressProvider, FunctionPatcher, Main
--                 the files of these names, a function for a function
--   KernelFindExport.InMemory
--                 the search of source/utils/KernelFindExport.cpp on the bytes of the loader's memory
--   PatchedFunctionData.Make, .Address, .Title, .Jumps
--                 source/PatchedFunctionData.cpp; its calls are `make_shared_v2`, `make_shared_v3`,
--                 `allocate_data_for_jumps`, `destroy`, `update_function_addresses`,
--                 `should_be_patched`, `generate_jump_to_original`, `generate_replacement_jump`
--   Export.Add, .Remove, .Query, .Status
--                 source/export.cpp
--   Utils         `ReadFromPhysicalAddress` of source/utils/utils.cpp, and
--                 `CThread::runOnAllCores` as its callers see it
--   Thread        the class of source/utils/CThread.h on the console's threads, with
--                 `run_on_all_cores` as the loop over three of its objects
--   Thread.Service  those threads and their heap, as parameters with named laws
--   Main.Initialize  `UpdateFunctionPointer` and `WUMS_INITIALIZE` of source/main.cpp
--   Ppc           the processor that runs the generated code: an independent description, by the
--                 fields of each instruction
--   Logging       source/utils/logger.c, with which logs are open
--   Main.Histories  the calls and hooks as steps, for statements about every reachable state
--   Main.Registry  what a caller sees of those steps: a set of handles, as the specification of
--                 source/export.cpp
--   Callers       several threads in the calls and hooks of source/export.cpp and source/main.cpp, with
--                 `gPatchedFunctionsMutex` of source/utils/globals.cpp; FPAddFunctionPatch makes its
--                 patch and calls PatchFunction before it locks
--   Tests         a concrete console, and the theorems applied on it
-- The other modules below these hold theorems on the module that they stand in or are named for.
--
-- How the state is modelled. A pointer is a number, 0 for null; a patch is known by the address of
-- its object, which is its handle. `gPatchedFunctions` is a list of these, and the objects are a
-- function of the address, so that two entries with one pointer are one object. Memory is the word
-- at each physical address; the generated code and the patched functions are whole, aligned words.
-- What the kernel sees of the loader's memory is bytes, in `Elf.Layout`. The program's own
-- addresses go through the parameter `mmu`. Numbers are natural, and 32-bit arithmetic that can
-- wrap has its `% 2 ^ 32` written out. A variable whose address the code takes has that address as
-- a parameter, since a copy through the kernel writes to it. `OSFatal` does not return: it is the
-- result `fatal` of an `Outcome`, and what follows it does not run.
--
-- Every loop is structural, on the list that it walks or on the number of entries that are left, but
-- for three. The loop over the loaded modules, in `KernelFindExport.InMemory`, has fuel for the
-- modules and the null pointer behind them, and texts there are read up to a limit, on which a text
-- that ends within it does not depend. In source/utils/CThread.h, the loop of `shutdownThread` has
-- fuel for its tests, and as many as the thread has suspensions, and one, are enough;
-- `runOnAllCores` needs one on each core.
-- `isThreadRunning` has fuel for its calls of itself.
--
-- Parameters, in the record `Platform`: the heap's and `new`'s answers, the loader, the kernel's copy
-- and address translation, the loaded modules and what the kernel sees at an address, the running
-- title and its version, OSGetUPID and its code, and whether a thread's memory could be allocated.
-- `Utils.IsPlatform` names what the theorems rely on of the copy and of the translation,
-- `Thread.Service.IsThreadService` and `Logging.Balance.IsLogService` of threads and logs.
--
-- Outside of `Callers` one call ends before the next begins. In `Callers`, a recursive mutex belongs to
-- one thread at a time. What runs under the lock is cut where another thread could come between: the
-- search through the list, the removal's parts, each round of a loop. The making of a patch and
-- PatchFunction run without the lock, and neither the jump heap nor the memory has one of its own: what
-- a step finds there and leaves there is any state of them, so nothing that `Callers` says depends on
-- them.
--
-- Not modelled: the data and instruction caches
-- and memory barriers (a flush changes no word), what the log prints
-- (source/utils/logger.h; the calls of `initLogging` are no part of the steps), the system-call stub
-- (source/utils/syscall.s), and the threads' scheduling: a thread's work is done as it is joined.
-- Of `WUMS_APPLICATION_STARTS`, the two functions for the threads' memory and the registration of
-- `notify_callback`, which no part of `State` depends on; the callback is a step at any time.
pub mod Base
pub mod Elf
pub mod Platform
pub mod KernelFindExport
pub mod Patch
pub mod FunctionAddressProvider
pub mod PatchedFunctionData
pub mod Ppc
pub mod Utils
pub mod Thread
pub mod Logging
pub mod FunctionPatcher
pub mod Export
pub mod Main
pub mod Callers
mod Tests
