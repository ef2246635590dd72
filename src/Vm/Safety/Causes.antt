-- ===== src/Vm/Safety/Causes.antt =====
-- What the traps of the bytecode machine (src/services/halaos_tasks.c) find in verified code.
use halaos_stm32f103_hardwar.Prelude.{ℕ, ◌-◌, ◌≤◌, ◌≡◌, Option, arith}
use halaos_stm32f103_hardwar.Bytecode.{Kind, kind}
use halaos_stm32f103_hardwar.Vm.{Machine}
use halaos_stm32f103_hardwar.Vm.Safety.{IsFetched}

pub kind-push : (op : ℕ) → kind op ≡ Kind.push → op ≡ 0x01
unfolding kind
kind-push op e = ground arith

pub kind-load_local : (op : ℕ) → kind op ≡ Kind.load_local → op ≡ 0x02
unfolding kind
kind-load_local op e = ground arith

pub kind-call : (op : ℕ) → kind op ≡ Kind.call → op ≡ 0x0E
unfolding kind
kind-call op e = ground arith

pub kind-ret : (op : ℕ) → kind op ≡ Kind.ret → op ≡ 0x0F
unfolding kind
kind-ret op e = ground arith

pub kind-gpio : (op : ℕ) → kind op ≡ Kind.gpio → op ≡ 0x10
unfolding kind
kind-gpio op e = ground arith

pub kind-special : (op : ℕ) → kind op ≡ Kind.special → (0x30 ≤ op) × (op ≤ 0x35)
unfolding kind
kind-special op e = ground arith

-- The opcode is the one before the program counter.
pub code_before :
    (code : ℕ → ℕ) (size : ℕ) (depth : ℕ → Option ℕ) (at d : ℕ) (k : Kind) (m : Machine)
    → IsFetched code size depth at d k m
    → kind (code (m.pc - 1)) ≡ k
code_before code size depth at d k m f =
    let before : m.pc - 1 ≡ at = omega (arith, f.next) in rw before f.kind_of
