-- ===== src/Logging/Balance.antt =====
-- What `initLogging` opens, `deinitLogging` closes.
use function_patcher_module.Base.{
  ℕ, Bool, true, false, ◌==◌, ◌!=◌, if◌then◌else◌, ◌≡◌, refl, arith, sym, ◌∙◌, ap, Bool-cases, inl,
  inr, if_true, if_false,
}
use function_patcher_module.Logging.{
  Log, LogService, LogFlags, initial_flags, flag_of, clear_flag, init_logging, deinit_if,
  deinit_logging,
}

abbrev pub same_log : Log → Log → Bool
same_log Log.module_log Log.module_log = true
same_log Log.cafe_log Log.cafe_log = true
same_log Log.udp_log Log.udp_log = true
same_log _ _ = false

-- What the code relies on, with `is_open` for the logs that are open: opening a log that is closed
-- opens it where the result is not 0, closing one that is open closes it, and the other logs stay.
pub record IsLogService {W : Type 0} (logs : LogService W) (is_open : W → Log → Bool) : Type 0 where
  pub opened :
      (l k : Log) (w : W)
      → is_open w l ≡ false
      → is_open (logs.init l w).1 k ≡ (if same_log l k then (logs.init l w).0 != 0 else is_open w k)
  pub closed :
      (l k : Log) (w : W)
      → is_open w l ≡ true
      → is_open (logs.deinit l w) k ≡ (if same_log l k then false else is_open w k)

same_log-eq : (l k : Log) → same_log l k ≡ true → l ≡ k
same_log-eq Log.module_log Log.module_log h = refl
same_log-eq Log.module_log Log.cafe_log h = cc
same_log-eq Log.module_log Log.udp_log h = cc
same_log-eq Log.cafe_log Log.module_log h = cc
same_log-eq Log.cafe_log Log.cafe_log h = refl
same_log-eq Log.cafe_log Log.udp_log h = cc
same_log-eq Log.udp_log Log.module_log h = cc
same_log-eq Log.udp_log Log.cafe_log h = cc
same_log-eq Log.udp_log Log.udp_log h = refl

each : (P : Log → Type 0) → P Log.module_log → P Log.cafe_log → P Log.udp_log → (l : Log) → P l
each P a b c Log.module_log = a
each P a b c Log.cafe_log = b
each P a b c Log.udp_log = c

-- A log is open exactly where its flag is not 0.
abbrev pub IsFlagged : {W : Type 0} → (W → Log → Bool) → LogFlags → W → Type 0
IsFlagged is_open f w = (l : Log) → is_open w l ≡ (flag_of f l != 0)

flags-initial : (f : LogFlags) → ((l : Log) → flag_of f l ≡ 0) → f ≡ initial_flags
flags-initial f flags =
    let module_flag = flags Log.module_log in
    let cafe_flag = flags Log.cafe_log in let udp_flag = flags Log.udp_log in ground arith

zero_flag : (n : ℕ) → (n != 0) ≡ false → n ≡ 0
zero_flag n h = ground arith

cleared_flag :
    (f : LogFlags) (l k : Log)
    → flag_of (clear_flag f l) k ≡ (if same_log l k then 0 else flag_of f k)
cleared_flag f Log.module_log = each _ refl refl refl
cleared_flag f Log.cafe_log = each _ refl refl refl
cleared_flag f Log.udp_log = each _ refl refl refl

module _ {W : Type 0} (logs : LogService W) (is_open : W → Log → Bool)
    (laws : IsLogService logs is_open) where
  init_logging-IsFlagged :
      (w : W)
      → ((l : Log) → is_open w l ≡ false)
      → IsFlagged is_open
          (init_logging logs initial_flags w).0
          (init_logging logs initial_flags w).1
  unfolding init_logging
  init_logging-IsFlagged w shut =
      let w1 = (logs.init Log.module_log w).1 in
      let w2 = (logs.init Log.cafe_log w1).1 in
      let one = λ (k : Log). laws.opened Log.module_log k w (shut Log.module_log) in
      let two = λ (k : Log). laws.opened Log.cafe_log k w1 (one Log.cafe_log ∙ shut Log.cafe_log) in
      let three = λ (k : Log).
        laws.opened Log.udp_log k w2 (two Log.udp_log ∙ one Log.udp_log ∙ shut Log.udp_log) in
      elim (Bool-cases ((logs.init Log.module_log w).0 == 0)) [
        | inl failed ↦ rw failed (
            each _ (three Log.module_log ∙ two Log.module_log ∙ one Log.module_log)
              (three Log.cafe_log ∙ two Log.cafe_log) (three Log.udp_log))
        | inr opened ↦ rw opened (
            each _ (one Log.module_log) (one Log.cafe_log ∙ shut Log.cafe_log)
              (one Log.udp_log ∙ shut Log.udp_log))
      ]

  -- A test of `deinitLogging` closes its log and clears its flag, and leaves the others alone.
  deinit_if-IsFlagged :
      (l : Log) (x : LogFlags × W)
      → IsFlagged is_open x.0 x.1
      → IsFlagged is_open (deinit_if logs l x).0 (deinit_if logs l x).1
        × ((k : Log)
            → flag_of (deinit_if logs l x).0 k ≡ (if same_log l k then 0 else flag_of x.0 k))
  unfolding deinit_if
  deinit_if-IsFlagged l (f, w) flagged = elim (Bool-cases (flag_of f l != 0)) [
    | inl set ↦ rw set (
      λ k.
          let flag = cleared_flag f l k in
          laws.closed l k w (flagged l ∙ set) ∙ elim (Bool-cases (same_log l k)) [
            | inl same ↦ if_true _ _ same ∙ sym (ap (λ n. n != 0) (flag ∙ if_true _ _ same))
            | inr other ↦
                if_false _ _ other ∙ flagged k ∙ sym (ap (λ n. n != 0) (flag ∙ if_false _ _ other))
          ],
      cleared_flag f l,
    )
    | inr clear ↦ rw clear (
      flagged,
      λ k. elim (Bool-cases (same_log l k)) [
        | inl same ↦
            ap (flag_of f) (sym (same_log-eq l k same))
            ∙ zero_flag (flag_of f l) clear
            ∙ sym (if_true _ _ same)
        | inr other ↦ sym (if_false _ _ other)
      ],
    )
  ]

  -- Where each log is open exactly where its flag is set, `deinitLogging` leaves every log closed and
  -- every flag 0.
  deinit_logging-closes :
      (f : LogFlags) (w : W)
      → IsFlagged is_open f w
      → ((l : Log) → flag_of (deinit_logging logs f w).0 l ≡ 0)
        × ((l : Log) → is_open (deinit_logging logs f w).1 l ≡ false)
  unfolding deinit_logging
  deinit_logging-closes f w flagged =
      let (at1, flags1) = deinit_if-IsFlagged Log.module_log (f, w) flagged in
      let x1 = deinit_if logs Log.module_log (f, w) in
      let (at2, flags2) = deinit_if-IsFlagged Log.cafe_log x1 at1 in
      let x2 = deinit_if logs Log.cafe_log x1 in
      let (at3, flags3) = deinit_if-IsFlagged Log.udp_log x2 at2 in
      let flags : (l : Log) → flag_of (deinit_if logs Log.udp_log x2).0 l ≡ 0 =
        each (λ k. flag_of (deinit_if logs Log.udp_log x2).0 k ≡ 0)
          (flags3 Log.module_log ∙ flags2 Log.module_log ∙ flags1 Log.module_log)
          (flags3 Log.cafe_log ∙ flags2 Log.cafe_log) (flags3 Log.udp_log) in
      (flags, λ l. at3 l ∙ ap (λ n. n != 0) (flags l))

  -- From a state with every log closed and every flag 0, as at the start and as after this pair of
  -- calls: `initLogging` leaves each log open exactly where its flag is set, whichever of them could be
  -- opened, and after it `deinitLogging` leaves every log closed and every flag 0. The logs are as
  -- `IsLogService` says: nothing is relied on of closing a log that is not open, or of opening one
  -- that is.
  pub deinit_logging-init_logging :
      (w : W)
      → ((l : Log) → is_open w l ≡ false)
      → let (f, w') = init_logging logs initial_flags w in
        IsFlagged is_open f w'
        × ((deinit_logging logs f w').0 ≡ initial_flags)
        × ((l : Log) → is_open (deinit_logging logs f w').1 l ≡ false)
  deinit_logging-init_logging w shut =
      let flagged = init_logging-IsFlagged w shut in
      let (flags, closed) = deinit_logging-closes _ _ flagged in
      (flagged, flags-initial _ flags, closed)
