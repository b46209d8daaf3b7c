-- ===== src/Wrapper.antt =====
-- crates/agent-dash/src/wrapper.rs: the process that runs an agent in a terminal of its own. The
-- threads are in the modules below, each as the function of one round of its loop. The pseudo
-- terminal, the terminal parser, the sockets and the commands it runs are parameters.
pub mod TermSize
pub mod Screen
pub mod Lines
pub mod Threads
pub mod Delays
pub mod Start
pub mod Events
mod Tests
