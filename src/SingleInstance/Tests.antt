-- ===== src/SingleInstance/Tests.antt =====
-- The pid file of single_instance_process/single_instance_process.cpp at concrete contents.
use cpp_done.SingleInstance.Instances
use cpp_done.SingleInstance.Instances.{begin, begins, IsSingle, Reach-IsSingle}
use cpp_done.SingleInstance.Overlap
use cpp_done.SingleInstance.Overlap.{
  World, past, open_file, make_file, leave, opens_file, makes_file, fills_file, checks_file,
}
use cpp_done.SingleInstance.Overlap.Pairs.{IsPair, Reach-IsPair}
use cpp_done.Prelude.{
  ℕ, [], false, ◌||◌, inr, ◌+◌, ◌*◌, ◌-◌, ◌^◌, ◌≡◌, refl, true, none, some, ◌++◌, arith, length,
  ◌==◌, if◌then◌else◌,
}
use cpp_done.Std.Decimal.{decimal, atol, digits_from}
use cpp_done.SingleInstance.Start.{IsCalm, check_only-stale, check_only_guard}
use cpp_done.SingleInstance.{
  System, alive, esrch, running, exits, write_pid_into_fd, create_pid_file, fill_pid_file,
  check_pid_file, check_only, sig_handler,
}
use cpp_done.Std.Text.{codes, c_str}

-- Only process 42 lives.
abbrev linux : System
linux = record {
  opens = true;
  creates = true;
  locks = true;
  reads = true;
  write = λ buf. some (length buf);
  kill = λ pid. if pid == 42 then alive else esrch;
}

program : Unit {0}
unfolding decimal atol digits_from c_str write_pid_into_fd create_pid_file check_pid_file check_only
    sig_handler
program = tt

calm : IsCalm linux
calm = record { opens = refl; creates = refl; locks = refl; reads = refl; writes = λ buf. refl }

starts : check_only linux 42 none ≡ (running, some (codes "42"))
unfolding program
starts = refl

second_exits : check_only linux 7 (some (codes "42")) ≡ (exits, some (codes "42"))
unfolding program
second_exits = refl

-- 42 starts over a stale 9, and 7 does not see it
appended : check_only linux 42 (some (codes "9")) ≡ (running, some (codes "942"))
unfolding program
appended = refl

both_run : check_only linux 7 (some (codes "942")) ≡ (running, some (codes "9427"))
unfolding program
both_run = refl

reads_signs : atol (codes " -1 x") ≡ 2 ^ 32 - 1
unfolding program
reads_signs = refl

check_only-stale_example :
    (check_only linux 42 (some (codes "9")) ≡ (running, some (codes "9" ++ decimal 42)))
    × (digits_from 0 (codes "9" ++ decimal 42)
        ≡ digits_from 0 (codes "9") * 10 ^ length (decimal 42) + digits_from 0 (decimal 42))
unfolding program
check_only-stale_example =
    check_only-stale linux 42 (codes "9") calm (refl, tt) refl (omega arith) refl

second_process_exits : check_only linux 7 (some (codes "42")) ≡ (exits, some (codes "42"))
unfolding program
second_process_exits = check_only_guard linux 7 (codes "42") refl (λ e. ground arith)

-- `CreatePidFile` takes its lock after it has made the file: another process may lock the empty file
-- first, and both go on.
both_create :
    (check_pid_file linux 7 [] ≡ (running, codes "7"))
    × (write_pid_into_fd linux 42 0 (codes "7") ≡ (running, codes "42"))
unfolding program
both_create = (refl, refl)

-- the calls of a process that is alone
abbrev calls_of : ℕ → System
calls_of pid = record linux { kill = λ n. if n == pid || false then alive else esrch }

calls_of-Answers : (pid : ℕ) → Instances.Answers Instances.new pid (calls_of pid)
unfolding Instances.new
calls_of-Answers pid = record { kills = λ n. refl; writes = λ buf. inr (inr refl) }

one_begun : Instances.Reach (begin (calls_of 42) 42 Instances.new)
unfolding Instances.new
one_begun =
    Instances.next Instances.first
      (begins (calls_of 42) 42 refl (omega arith) (calls_of-Answers 42))

went_on : (begin (calls_of 42) 42 Instances.new).past 42 ≡ true
unfolding begin Instances.new program
went_on = refl

Reach-IsSingle_example : IsSingle (begin (calls_of 42) 42 Instances.new)
Reach-IsSingle_example = Reach-IsSingle one_begun

-- the calls where 42 and 77 live
abbrev two_live : System
two_live = record linux { kill = λ n. if n == 42 || n == 77 then alive else esrch }

-- 42 makes the file, 77 finds it empty and goes on, and then 42 writes
abbrev made_42 : World
made_42 = make_file two_live 42 (open_file two_live 42 Overlap.new)

abbrev found_77 : World
found_77 = open_file two_live 77 made_42

abbrev past_77 : World
past_77 = leave 77 (check_pid_file two_live 77 []) found_77

abbrev both_past : World
both_past = leave 42 (fill_pid_file two_live 42 (codes "77")) past_77

overlap : Unit {0}
unfolding program Overlap.new open_file make_file leave fill_pid_file
overlap = tt

two_past : (both_past.place 42 ≡ past) × (both_past.place 77 ≡ past)
unfolding overlap
two_past = (refl, refl)

reached_both : Overlap.Reach 2 both_past
unfolding overlap
reached_both =
    let opened = Overlap.next Overlap.first (opens_file two_live 42 refl (omega arith) refl) in
    let created = Overlap.next opened (makes_file two_live 42 refl) in
    let opened_too = Overlap.next created (opens_file two_live 77 refl (omega arith) refl) in
    let checked = Overlap.next opened_too (
      checks_file two_live 77 [] refl refl
        (record { kills = λ n l e. ground arith; writes = λ buf. inr (inr refl) })) in
    Overlap.next checked (
      fills_file two_live 42 (codes "77") refl refl
        (record { kills = λ n l e. ground arith; writes = λ buf. inr (inr refl) }))

Reach-IsPair_example : IsPair both_past
Reach-IsPair_example = Reach-IsPair reached_both
