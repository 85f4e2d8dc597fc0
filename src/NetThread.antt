-- ===== src/NetThread.antt =====
-- `net::Thread` of http_client/thread.cpp and http_client/thread.h, a handle on one `std::thread`.
pub mod Lives
mod Tests
use cpp_done.Prelude.{
  ℕ, Bool, true, false, not, ◌&&◌, Option, none, some, List, [], ◌∷◌, if◌then◌else◌,
}
use cpp_done.Std.Text.{Bytes}

-- `thread` is `pThread_`: null, or whether the `std::thread` is joinable
pub record Thread : Type 0 where
  pub name : Bytes
  pub started : Bool
  pub joined : Bool
  pub thread : Option Bool

-- A null pointer is used, an exception leaves the function, or a joinable `std::thread` is destroyed.
pub data Outcome : Type 0 where
  fine : Thread → Outcome
  null_pointer throws terminates : Outcome

unfoldable pub new : Bytes → Thread
new name = record { name = name; started = false; joined = false; thread = none }

-- `pThread_ = ...` and the end of `pThread_` drop the object that was there
unfoldable pub drop_thread : Option Bool → Outcome → Outcome
drop_thread none after = after
drop_thread (some joinable) after = if joinable then terminates else after

-- `spawns` tells whether the constructor of `std::thread` makes one
unfoldable pub start : Bool → Thread → Outcome
start spawns t =
    let begun = record t { started = true } in
    if spawns then drop_thread t.thread (fine (record begun { thread = some true })) else throws

unfoldable pub join : Thread → Outcome
join t = elim t.thread [
  | none ↦ null_pointer
  | some joinable ↦
      if joinable then fine (record t { joined = true; thread = some false }) else throws
]

-- the destructor
unfoldable pub destroy : Thread → Outcome
destroy t =
    if t.started && not t.joined
    then elim t.thread [
      | none ↦ null_pointer
      | some joinable ↦ if joinable then fine (record t { thread = some false }) else throws
    ]
    else drop_thread t.thread (fine t)

pub data Call : Type 0 where
  starts : Bool → Call
  joins : Call

unfoldable pub call : Call → Thread → Outcome
call (starts spawns) t = start spawns t
call joins t = join t

-- the calls, and then the destructor
unfoldable pub live : List Call → Thread → Outcome
unfolding call
live [] t = destroy t
live (c ∷ cs) t = elim (call c t) [
  | fine next ↦ live cs next
  | null_pointer ↦ null_pointer
  | throws ↦ throws
  | terminates ↦ terminates
]
