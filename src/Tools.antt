-- ===== src/Tools.antt =====
-- include/tools/Tools.h: what a connection asks of its reactor. The children are about
-- src/Tools.cpp: texts, and the timers of clients.
pub mod Text
pub mod Clients
pub mod Descriptors

pub data Action : Type 0 where
  read write wait close upgrade : Action
