-- ===== src/Sync.antt =====
-- runtime/sync.c and inc/runtime/sync.h: mutexes, read-write mutexes, condition variables, wait groups
-- and barriers. Each critical section runs under the object's spin lock, so it is one function here;
-- a thread that parks is in a waiter list, and the threads that are made ready are logged in order.
pub mod Ready
pub mod Mutex
pub mod RwMutex
pub mod WaitGroup
pub mod Barrier
pub mod CondVar
mod Tests
