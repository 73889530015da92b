-- ===== src/Debugger/Counter.antt =====
-- A target small enough to evaluate: the machine is its program counter, every instruction adds one to
-- it, and the engine calls the code hook before each.
use ghidra_unicorn.Prelude.{
  nat_eq, ℕ, zero, suc, ◌+◌, ◌≡◌, refl, sym, ◌∙◌, ap, arith, ◌==◌, Bool, true, false, inr, none,
  some, [],
}
use ghidra_unicorn.Engine.{Engine, EngineLaws}
use ghidra_unicorn.Arch.{Text, ArchSpec}
use ghidra_unicorn.Timeline.{Timeline}
use ghidra_unicorn.Debugger.{Host, Session}
use ghidra_unicorn.Debugger.Hook.{on_code, replay_turn, replay_code}
use ghidra_unicorn.Debugger.Hook.Calls.{Calls, begins, code}
use ghidra_unicorn.Debugger.Run.{Runner, start_pc}
use ghidra_unicorn.Debugger.Run.Emulated.{HooksOnly}
use ghidra_unicorn.Debugger.Reverse.{resync_status}
use ghidra_unicorn.Debugger.Reverse.Recorded.{steps, Replays, History}

abbrev pub counter : Engine
counter = record {
  Machine = ℕ;
  Context = ℕ;
  regions = λ m. [];
  mem_read = λ m a n. none;
  mem_write = λ m a d. none;
  mem_map = λ m start size perms. none;
  mem_unmap = λ m start size. none;
  context_save = λ m. m;
  context_restore = λ m c. c;
  context_size = λ c. 8;
}

-- A condition is a constant; the one register holds the program counter.
abbrev pub host : Host
host = record {
  engine = counter;
  Code = Bool;
  strip = λ text. text;
  compile = λ text. some true;
  evaluate = λ result m hits icount extra. inr result;
  reg_read = λ m name. some m;
  pc = λ m. m;
  Own = ℕ;
  Saved = ℕ;
  Detail = ℕ;
  layer_restore = λ saved own. saved;
  layer_forget = λ saved own. own;
}

abbrev pub walked :
    (ℕ → Session host → ℕ × Session host) → Bool → ℕ → Session host → ℕ × Session host
walked more true m s = (m, s)
walked more false m s = more (m + 1) s

-- At most a number of instructions, until the hook halts.
unfoldable pub walk : ℕ → ℕ → Session host → ℕ × Session host
walk zero m s = (m, s)
walk (suc n) m s = let s' = on_code m m s in walked (walk n) s'.halting m s'

abbrev text : Text
text = record { lower = λ x. x; has = λ x y. false; split_space = λ x. none; split_dot = λ x. none }

abbrev spec : ArchSpec
spec = record {
  bits = 32;
  regs = [];
  pc = "pc";
  sp = "sp";
  call_mnemonics = [];
  return_mnemonics = [];
  thumb_field = none;
  flags = [];
  status = none;
  fields = [];
}

abbrev pub runner : Runner host
runner = record {
  emu_start = λ m s start stop_at count. (none, (walk count start s).0, (walk count start s).1);
  thumb = λ m. false;
  decode = λ m a. none;
  text = text;
  spec = spec;
  reg_read = λ m n. some m;
  reg_write = λ m n value. some m;
}

walked-Calls :
    (more : ℕ → Session host → ℕ × Session host) (halting : Bool) (m : ℕ) (start s : Session host)
    → Calls start s
    → ((m' : ℕ) (s' : Session host) → Calls start s' → Calls start (more m' s').1)
    → Calls start (walked more halting m s).1
walked-Calls more true m start s run rest = run
walked-Calls more false m start s run rest = rest (m + 1) s run

walk-Calls : (n m : ℕ) (start s : Session host) → Calls start s → Calls start (walk n m s).1
unfolding walk
walk-Calls zero m start s run = run
walk-Calls (suc n) m start s run =
    walked-Calls (walk n) (on_code m m s).halting m start (on_code m m s) (code m m run)
      (λ m' s' run'. walk-Calls n m' start s' run')

pub runner-HooksOnly : HooksOnly runner
runner-HooksOnly = record { calls = λ m s start stop_at count. walk-Calls count start s s begins }

-- A history from instruction 0 that stands at a given instruction.
abbrev pub history : ℕ → Timeline ℕ
history icount = record {
  interval = 100;
  budget = 1000;
  enabled = true;
  icount = icount;
  base = some (record { icount = 0; context = 0; pages = []; regions = some [] });
  checkpoints = [];
  dirty = [];
  dropped = 0;
  next = 100;
}

abbrev pub session : ℕ → Session host
session icount = record {
  end = none;
  exits = [];
  breakpoints = [];
  next_bp = 1;
  by_addr = [];
  reg_watches = [];
  running = false;
  first = false;
  halting = false;
  stop = none;
  pending = none;
  interrupted = false;
  terminated = false;
  fault = none;
  timeline = history icount;
  replaying = false;
  replay_icount = 0;
  left = none;
  trace = none;
  observed = none;
  hits = [];
  layers = [];
}

-- An instruction of the counter, whichever it is.
abbrev pub count_on : ℕ → ℕ → ℕ
count_on i m = m + 1

walk-steps :
    (n m : ℕ) (s : Session host)
    → (walk n m (record s { replaying = true; left = some n })).0
      ≡ steps count_on s.replay_icount n m
unfolding walk steps on_code replay_code
walk-steps zero m s = refl
walk-steps (suc n) m s =
    let next : Session host =
      replay_turn m false (record s { replaying = true; left = some (suc n) }) in
    let goes_on : (suc n == 0) ≡ false = ground arith in
    rw goes_on (walk-steps n (m + 1) next ∙ ap (λ i. steps count_on i n (m + 1)) (omega arith))

pub runner-Replays : Replays runner count_on []
unfolding start_pc
runner-Replays = record {
  runs = λ m m' s s' n on left same clear p.
      let same_session : s ≡ record s { replaying = true; left = some (suc n) } =
        λ i. record s { replaying = on i; left = left i } in
      sym (ap {B = ℕ} (λ x. x.1) p)
      ∙ ap {A = Session host} (λ x. (walk (suc n) m x).0) same_session
      ∙ walk-steps (suc n) m s;
}

pub resync_status-same : (a b : ℕ) → a ≡ b → resync_status runner a ≡ b
unfolding resync_status
resync_status-same a b p = p

-- The counter went up from 100.
abbrev pub past : History runner count_on
past = record {
  Same = λ a b. a ≡ b;
  state = λ i. 100 + i;
  recorded = λ i. omega arith;
  same_step = λ i a b p. ap (λ x. x + 1) p;
  same_pc = λ a b p. p;
  same_status = resync_status-same;
}

-- The counter has no memory.
pub counter-EngineLaws : EngineLaws counter
counter-EngineLaws = record {
  read_length = λ m a n d p. absurd (cc);
  write_page = λ m a old d al l p. absurd (cc);
  write_unmapped = λ m a d al l p. refl;
  write_apart = λ m a q d m' p al apart. absurd (cc);
  write_regions = λ m a d m' p. absurd (cc);
  mapped_in_region = λ m q d al p. absurd (cc);
  region_aligned = λ m r i. elim i [ ];
  restore_page = λ m c q. refl;
  restore_context = λ m c. refl;
}
