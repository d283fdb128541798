-- ===== src/Interrupt.antt =====
-- machine/interrupt.cc: the pending interrupts and the simulated time. The list of pending
-- interrupts is the sequence that the SortedList holds. The counters of `kernel->stats` stand with
-- the other fields; the delayed load of the machine and the output are left out.
pub mod Advance
pub mod Clock
pub mod Due
pub mod Firing
pub mod Pending
use nachos_system_design.Base.{
  ℕ, zero, suc, Bool, true, false, not, ◌&&◌, ◌||◌, Option, none, some, List, [], ◌∷◌, length,
  if◌then◌else◌, Run, ok, aborted, ◌>>=◌, ◌>>◌, assert,
}
use nachos_system_design.Machine.Word.{add32, sub32, less}
use nachos_system_design.SortedList.{Sign, negative, null_sign, positive, is_negative}

pub data IntStatus : Type 0 where
  int_off int_on : IntStatus

pub data MachineStatus : Type 0 where
  idle_mode system_mode user_mode : MachineStatus

pub data IntType : Type 0 where
  timer_int disk_int console_write_int console_read_int network_send_int network_recv_int : IntType

-- `call_on_interrupt` is the address of the object to call.
pub record PendingInterrupt : Type 0 where
  pub call_on_interrupt : ℕ
  pub when : ℕ
  pub type : IntType

pub record Interrupt : Type 0 where
  pub level : IntStatus
  pub pending : List PendingInterrupt
  pub in_handler : Bool
  pub yields_on_return : Bool
  pub status : MachineStatus
  pub total_ticks : ℕ
  pub idle_ticks : ℕ
  pub system_ticks : ℕ
  pub user_ticks : ℕ

abbrev pub system_tick : ℕ
system_tick = 10

abbrev pub user_tick : ℕ
user_tick = 1

abbrev pub is_off : IntStatus → Bool
is_off int_off = true
is_off int_on = false

abbrev pub is_system : MachineStatus → Bool
is_system system_mode = true
is_system _ = false

-- The constructor, before the first tick.
unfoldable pub new : Interrupt
new = record {
  level = int_off;
  pending = [];
  in_handler = false;
  yields_on_return = false;
  status = system_mode;
  total_ticks = 0;
  idle_ticks = 0;
  system_ticks = 0;
  user_ticks = 0;
}

unfoldable pub pending_compare : PendingInterrupt → PendingInterrupt → Sign
pending_compare x y =
    if less x.when y.when then negative else (if less y.when x.when then positive else null_sign)

-- `pending->Insert`: in front of the first one that is larger.
unfoldable pub insert_pending : PendingInterrupt → List PendingInterrupt → List PendingInterrupt
insert_pending p [] = p ∷ []
insert_pending p (q ∷ qs) =
    if is_negative (pending_compare p q) then p ∷ q ∷ qs else q ∷ insert_pending p qs

-- `pending->RemoveFront`, which checks that the list is not empty.
unfoldable pub pull : Interrupt → List PendingInterrupt → Run (PendingInterrupt × Interrupt)
pull s [] = aborted
pull s (p ∷ ps) = ok (p, record s { pending = ps })

abbrev pub change_level : IntStatus → Interrupt → Interrupt
change_level now s = record s { level = now }

-- `SetLevel` up to the tick, with the old level.
unfoldable pub enter_level : IntStatus → Interrupt → Run (IntStatus × Interrupt)
enter_level now s = do assert (is_off now || not s.in_handler); ok (s.level, change_level now s)

unfoldable pub yield_on_return : Interrupt → Run Interrupt
yield_on_return s = do assert s.in_handler; ok (record s { yields_on_return = true })

unfoldable pub schedule : ℕ → ℕ → IntType → Interrupt → Run Interrupt
schedule to_call from_now type s =
    let to_occur : PendingInterrupt = record {
      call_on_interrupt = to_call;
      when = add32 s.total_ticks from_now;
      type = type;
    } in
    do assert (less 0 from_now); ok (record s { pending = insert_pending to_occur s.pending })

-- What a handler does to the object: its fields are private, and these are the methods that
-- handlers call. A handler that turns interrupts on fails the check of `SetLevel`.
pub data Request : Type 0 where
  to_schedule : ℕ → ℕ → IntType → Request
  to_yield : Request
  to_level : IntStatus → Request

unfoldable pub grant : Request → Interrupt → Run Interrupt
grant (to_schedule obj from_now type) s = schedule obj from_now type s
grant to_yield s = yield_on_return s
grant (to_level now) s = do (_, s') ← enter_level now s; ok s'

unfoldable pub grant_all : List Request → Interrupt → Run Interrupt
grant_all [] s = ok s
grant_all (r ∷ rs) s = do s' ← grant r s; grant_all rs s'

-- Is the front of the list due?
unfoldable pub is_due : ℕ → List PendingInterrupt → Bool
is_due ticks [] = false
is_due ticks (p ∷ _) = not (less ticks p.when)

unfoldable pub advance_ticks : Interrupt → Interrupt
advance_ticks s =
    if is_system s.status
    then record s {
      total_ticks = add32 s.total_ticks system_tick;
      system_ticks = add32 s.system_ticks system_tick;
    }
    else record s {
      total_ticks = add32 s.total_ticks user_tick;
      user_ticks = add32 s.user_ticks user_tick;
    }

-- The clock at the time of the next interrupt, when this is later.
unfoldable pub catch_up : ℕ → Interrupt → Interrupt
catch_up when s =
    if less s.total_ticks when
    then record s { idle_ticks = add32 s.idle_ticks (sub32 when s.total_ticks); total_ticks = when }
    else s

-- The handlers of the devices are an argument: given the object, the status of the machine and the
-- rest of the kernel, the rest that they leave and their requests. `yield` is `Thread::Yield`.
module _ {W : Type 0} (call_back : ℕ → MachineStatus → W → W × List Request)
    (yield : W → Interrupt → Run (W × Interrupt)) where
  unfoldable pub call : PendingInterrupt → W → Interrupt → Run (W × Interrupt)
  call p w s = do
    let (w', requests) = call_back p.call_on_interrupt s.status w
    s' ← grant_all requests s
    ok (w', s')

  -- The loop of `CheckIfDue`; `none` when the rounds given run out.
  unfoldable pub fire : ℕ → W → Interrupt → Run (Option (W × Interrupt))
  fire zero w s = ok none
  fire (suc n) w s = do
    (p, s') ← pull s s.pending
    (w', s'') ← call p w s'
    let rest = fire n w' s''
    if is_due s''.total_ticks s''.pending then rest else ok (some (w', s''))

  abbrev after_fire : Option (W × Interrupt) → Option (W × Interrupt × Bool)
  after_fire none = none
  after_fire (some (w, s)) = some (w, record s { in_handler = false }, true)

  -- The rest of `CheckIfDue`, from the handlers on.
  unfoldable pub fire_all : W → Interrupt → Run (Option (W × Interrupt × Bool))
  fire_all w s = do
    r ← fire (length s.pending) w (record s { in_handler = true })
    ok (after_fire r)

  -- `CheckIfDue` behind its check that interrupts are off.
  unfoldable pub check_front :
      Bool → W → Interrupt → List PendingInterrupt → Run (Option (W × Interrupt × Bool))
  check_front advance_clock w s [] = ok (some (w, s, false))
  check_front advance_clock w s (next ∷ _) =
      if less s.total_ticks next.when && not advance_clock
      then ok (some (w, s, false))
      else fire_all w (catch_up next.when s)

  unfoldable pub check_if_due : Bool → W → Interrupt → Run (Option (W × Interrupt × Bool))
  check_if_due advance_clock w s = do
    assert (is_off s.level)
    check_front advance_clock w s s.pending

  -- The end of `OneTick`: the context switch that a handler asked for.
  unfoldable pub finish_tick : MachineStatus → W → Interrupt → Run (W × Interrupt)
  finish_tick old_status w s =
      let switched = do
        (w', s') ← yield w (record s { yields_on_return = false; status = system_mode })
        ok (w', record s' { status = old_status })
      in if s.yields_on_return then switched else ok (w, s)

  abbrev after_check : MachineStatus → Option (W × Interrupt × Bool) → Run (Option (W × Interrupt))
  after_check old_status none = ok none
  after_check old_status (some (w, s, _)) = do
    r ← finish_tick old_status w (change_level int_on s)
    ok (some r)

  unfoldable pub one_tick : W → Interrupt → Run (Option (W × Interrupt))
  one_tick w s = do
    r ← check_if_due false w (change_level int_off (advance_ticks s))
    after_check s.status r

  unfoldable pub set_level : IntStatus → W → Interrupt → Run (IntStatus × Option (W × Interrupt))
  set_level now w s = do
    (old, s') ← enter_level now s
    r ← if not (is_off now) && is_off old then one_tick w s' else ok (some (w, s'))
    ok (old, r)

  -- With the answer true, the machine halts.
  abbrev rest_of_idle : Option (W × Interrupt × Bool) → Option (W × Interrupt × Bool)
  rest_of_idle none = none
  rest_of_idle (some (w, s, true)) = some (w, record s { status = system_mode }, false)
  rest_of_idle (some (w, s, false)) = some (w, s, true)

  unfoldable pub idle : W → Interrupt → Run (Option (W × Interrupt × Bool))
  idle w s = do r ← check_if_due true w (record s { status = idle_mode }); ok (rest_of_idle r)
