-- ===== src/Firmware/Sata/Order.antt =====
-- sata_isr.c (fiq_handler) and sata_main.c (Main): the order in which the commands are carried out, with
-- interrupts between the rounds of Main.
use issd.Base.{
  Option, none, some, not, ◌&&◌, ℕ, ◌/◌, ◌%◌, ◌==◌, ◌≡◌, refl, sym, ap, ◌∙◌, Bool, true, false,
  ◌||◌, inl, inr, List, [], ◌∷◌, ◌++◌, map, append_assoc, append-nil, if◌then◌else◌, Bool-cases,
}
use issd.Firmware.Sata.Table.{cmd_class, search_ata_function}
use issd.Firmware.Sata.{
  EventQueue, Frame, Interrupt, Sata, SlowStatus, idle, pending, busy, Call, transfer, report_idnf,
  call_ftl_read, call_ftl_write, call_ata, flag, cmd_code_of, decode_lba, decode_count,
  out_of_range, action_flags_of, handle_got_cfis, handle_srst, handle_other, fiq_handler,
  resume_transfer, call_of, main_round, main_step,
}

-- The calls of the FTL among all.
abbrev pub ftl_calls : List Call → List Call
ftl_calls [] = []
ftl_calls (call_ftl_read l n ∷ cs) = call_ftl_read l n ∷ ftl_calls cs
ftl_calls (call_ftl_write l n ∷ cs) = call_ftl_write l n ∷ ftl_calls cs
ftl_calls (transfer f ∷ cs) = ftl_calls cs
ftl_calls (report_idnf ∷ cs) = ftl_calls cs
ftl_calls (call_ata f l n ∷ cs) = ftl_calls cs

ftl_calls-append : (xs ys : List Call) → ftl_calls (xs ++ ys) ≡ ftl_calls xs ++ ftl_calls ys
ftl_calls-append [] ys = refl
ftl_calls-append (call_ftl_read l n ∷ xs) ys = ap (◌∷◌ (call_ftl_read l n)) (ftl_calls-append xs ys)
ftl_calls-append (call_ftl_write l n ∷ xs) ys =
    ap (◌∷◌ (call_ftl_write l n)) (ftl_calls-append xs ys)
ftl_calls-append (transfer f ∷ xs) ys = ftl_calls-append xs ys
ftl_calls-append (report_idnf ∷ xs) ys = ftl_calls-append xs ys
ftl_calls-append (call_ata f l n ∷ xs) ys = ftl_calls-append xs ys

-- The call of an entry is a call of the FTL.
ftl_calls-call_of : (e : ℕ × ℕ) → ftl_calls (call_of e ∷ []) ≡ call_of e ∷ []
unfolding call_of
ftl_calls-call_of e = elim (Bool-cases (e.1 / 2147483648 == 1)) [
  | inl write ↦ rw (write, call_of) refl
  | inr read ↦ rw (read, call_of) refl
]

map-append : (f : ℕ × ℕ → Call) (xs ys : List (ℕ × ℕ)) → map f (xs ++ ys) ≡ map f xs ++ map f ys
map-append f [] ys = refl
map-append f (x ∷ xs) ys = ap (◌∷◌ (f x)) (map-append f xs ys)

-- What has been asked of the FTL: the calls made, and those of the entries in the queue.
abbrev asked_with : List Call → List (ℕ × ℕ) → List Call
asked_with calls events = ftl_calls calls ++ map call_of events

abbrev pub asked : Sata → List Call
asked s = asked_with s.calls s.events

asked-skip :
    (calls : List Call) (c : Call) (events : List (ℕ × ℕ))
    → ftl_calls (c ∷ []) ≡ []
    → asked_with (calls ++ (c ∷ [])) events ≡ asked_with calls events
asked-skip calls c events e =
    rw (ftl_calls-append calls (c ∷ []), e, append-nil (ftl_calls calls)) refl

asked-serve :
    (calls : List Call) (e : ℕ × ℕ) (events : List (ℕ × ℕ))
    → asked_with (calls ++ (call_of e ∷ [])) events ≡ asked_with calls (e ∷ events)
asked-serve calls e events =
    rw (ftl_calls-append calls (call_of e ∷ []), ftl_calls-call_of e)
      (append_assoc (ftl_calls calls) (call_of e ∷ []) (map call_of events))

asked-insert :
    (calls : List Call) (e : ℕ × ℕ) (events : List (ℕ × ℕ))
    → asked_with calls (events ++ (e ∷ [])) ≡ asked_with calls events ++ (call_of e ∷ [])
asked-insert calls e events =
    rw (map-append call_of events (e ∷ []))
      (sym (append_assoc (ftl_calls calls) (map call_of events) (call_of e ∷ [])))

-- The end of a transfer changes neither the queue nor the calls of the FTL.
resume_transfer-parts :
    (s : Sata)
    → (ftl_calls (resume_transfer s).calls ≡ ftl_calls s.calls)
      × ((resume_transfer s).events ≡ s.events)
unfolding resume_transfer
resume_transfer-parts s = elim (Bool-cases s.eq_full) [
  | inl full ↦ elim (Bool-cases s.link_up) [
    | inl up ↦
        rw (resume_transfer, full, up)
          (
            ftl_calls-append s.calls (transfer s.action_flags ∷ [])
                ∙ append-nil (ftl_calls s.calls),
            refl,
          )
    | inr down ↦ rw (resume_transfer, full, down) (refl, refl)
  ]
  | inr free ↦ rw (resume_transfer, free) (refl, refl)
]

-- An entry moves from the queue to the calls.
pub main_round-asked :
    (in_function : Bool) (events : List (ℕ × ℕ)) (status : SlowStatus) (s : Sata)
    → s.events ≡ events
    → asked (main_round in_function events status s) ≡ asked s
unfolding main_round
main_round-asked true events status s at = refl
main_round-asked false (e ∷ rest) status s at =
    let s' = resume_transfer (record s { events = rest }) in
    let (same_calls, same_events) = resume_transfer-parts (record s { events = rest }) in
    asked-serve s'.calls e s'.events
    ∙ ap (λ es. ftl_calls s'.calls ++ map call_of (e ∷ es)) same_events
    ∙ ap (λ cs. cs ++ map call_of (e ∷ rest)) same_calls
    ∙ ap (asked_with s.calls) (sym at)
main_round-asked false [] pending s at =
    asked-skip s.calls (call_ata (search_ata_function s.slow_code) s.slow_lba s.slow_sector_count)
      s.events refl
main_round-asked false [] idle s at = refl
main_round-asked false [] busy s at = refl

pub main_step-asked : (s : Sata) → asked (main_step s) ≡ asked s
unfolding main_step
main_step-asked s = main_round-asked s.in_function s.events s.slow_status s refl

-- A step of the device.
pub data Action : Type 0 where
  interrupt : Interrupt → Action
  main : Action

module _ (hw : EventQueue) where
  open hw use {entry}

  unfoldable pub act : Sata → Action → Option Sata
  unfolding fiq_handler
  act s (interrupt i) = fiq_handler hw s i
  act s main = some (main_step s)

  -- No error of the link.
  abbrev pub Fine : Action → Type 0
  Fine (interrupt i) = (not i.cmd_recv && i.operation_err) ≡ false
  Fine main = Unit

  abbrev pub AllFine : List Action → Type 0
  AllFine [] = Unit
  AllFine (a ∷ rest) = Fine a × AllFine rest

  -- The call of a command that is put into the queue.
  abbrev taken : Sata → Frame → List Call
  taken s f =
      let c = cmd_class (cmd_code_of f) in
      if out_of_range (decode_lba s f) (decode_count f) c
      then []
      else if flag 1 c || flag 2 c
      then call_of (entry (flag 2 c) (decode_lba s f) (decode_count f)) ∷ []
      else []

  abbrev pub taken_by : Sata → Action → List Call
  taken_by s (interrupt i) = if i.cmd_recv then taken s i.frame else []
  taken_by s main = []

  abbrev pub run : Sata → List Action → Option Sata
  run s [] = some s
  run s (a ∷ rest) = elim (act s a) [ none ↦ none | some t ↦ run t rest ]

  abbrev pub taken_in : Sata → List Action → List Call
  taken_in s [] = []
  taken_in s (a ∷ rest) = taken_by s a ++ elim (act s a) [ none ↦ [] | some t ↦ taken_in t rest ]

  handle_got_cfis-asked :
      (s : Sata) (f : Frame) → asked (handle_got_cfis hw s f) ≡ asked s ++ taken s f
  unfolding handle_got_cfis
  handle_got_cfis-asked s f =
      let c = cmd_class (cmd_code_of f) in
      let e = entry (flag 2 c) (decode_lba s f) (decode_count f) in
      elim (Bool-cases (out_of_range (decode_lba s f) (decode_count f) c)) [
        | inl outside ↦
            rw (handle_got_cfis, outside)
              (asked-skip s.calls report_idnf s.events refl ∙ sym (append-nil (asked s)))
        | inr inside ↦ elim (Bool-cases (flag 1 c || flag 2 c)) [
          | inr other ↦ rw (handle_got_cfis, inside, other) (sym (append-nil (asked s)))
          | inl ftl ↦ elim (Bool-cases f.queue_full) [
            | inl full ↦ rw (handle_got_cfis, inside, ftl, full) (asked-insert s.calls e s.events)
            | inr free ↦
                rw (handle_got_cfis, inside, ftl, free)
                  (asked-skip s.calls (transfer (action_flags_of (flag 2 c) (cmd_code_of f)))
                      (s.events ++ (e ∷ [])) refl
                    ∙ asked-insert s.calls e s.events)
          ]
        ]
      ]

  handle_srst-asked : (s : Sata) (f : Frame) → asked (handle_srst s f) ≡ asked s
  unfolding handle_srst
  handle_srst-asked s f = elim (Bool-cases (flag 67108864 f.fis_d3)) [
    | inl set ↦ rw (handle_srst, set) refl
    | inr clear ↦ elim (Bool-cases s.srst) [
      | inl was_set ↦ rw (handle_srst, clear, was_set) refl
      | inr was_clear ↦ rw (handle_srst, clear, was_clear) refl
    ]
  ]

  -- The interrupts that are not a command.
  handle_other-asked : (s : Sata) (i : Interrupt) → asked (handle_other s i) ≡ asked s
  unfolding handle_other
  handle_other-asked s i = elim (Bool-cases i.reg_fis_recv) [
    | inl reg ↦ elim (Bool-cases (i.frame.fis_d0 % 256 == 0x27)) [
      | inl register ↦ rw (handle_other, reg, register) (handle_srst-asked s i.frame)
      | inr unknown ↦ rw (handle_other, reg, unknown) refl
    ]
    | inr none_there ↦ elim (Bool-cases i.phy_online) [
      | inl online ↦ rw (handle_other, none_there, online) refl
      | inr nothing ↦ rw (handle_other, none_there, nothing) refl
    ]
  ]

  act-asked :
      (s : Sata) (a : Action)
      → Fine a
      → (t : Sata) × (act s a ≡ some t) × (asked t ≡ asked s ++ taken_by s a)
  unfolding act fiq_handler
  act-asked s main fine = (main_step s, refl, main_step-asked s ∙ sym (append-nil (asked s)))
  act-asked s (interrupt i) fine = elim (Bool-cases i.cmd_recv) [
    | inl command ↦ (
      handle_got_cfis hw s i.frame,
      rw (act, fiq_handler, command) refl,
      rw command (handle_got_cfis-asked s i.frame),
    )
    | inr none_sent ↦
        let no_error : i.operation_err ≡ false = rw none_sent at fine in
        (
          handle_other s i,
          rw (act, fiq_handler, none_sent, no_error) refl,
          rw none_sent (handle_other-asked s i ∙ sym (append-nil (asked s))),
        )
  ]

  -- Whatever interrupts without an error of the link come between the rounds of Main, all steps return,
  -- and the FTL calls made and those of the entries in the queue are then, in this order, those at
  -- the start followed by those of the commands that were taken, in the order in which they came.
  -- None is lost, repeated or overtaken.
  pub run-asked :
      (s : Sata) (actions : List Action)
      → AllFine actions
      → (t : Sata) × (run s actions ≡ some t) × (asked t ≡ asked s ++ taken_in s actions)
  run-asked s [] fine = (s, refl, sym (append-nil (asked s)))
  run-asked s (a ∷ rest) (here, later) =
      let (t, returned, step) = act-asked s a here in
      let (u, ran, more) = run-asked t rest later in
      (
        u,
        rw (run, returned) ran,
        rw (taken_in, returned)
            (more
              ∙ ap (λ cs. cs ++ taken_in t rest) step
              ∙ append_assoc (asked s) (taken_by s a) (taken_in t rest)),
      )
