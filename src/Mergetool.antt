-- ===== src/Mergetool.antt =====
-- src/merge/terminal_mergetool.py: the two queues, one turn for a queue's head, and the main loop.
pub mod State
pub mod Scanning
pub mod Resolution
pub mod Turn
pub mod Loop
pub mod Keeps
pub mod Runs
pub mod Invariant
pub mod Quiet
