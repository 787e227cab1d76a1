-- ===== src/Time/Snapshot.antt =====
-- What a coherent snapshot of the device's TIME has read (src/time_process.cpp).
use canopen_slave_tester.Prelude.{
  ℕ, zero, suc, ◌<◌, ◌≡◌, Option, some, List, ◌∷◌, arith, ap, sym, ◌∙◌, inl, inr, Option-cases,
}
use canopen_slave_tester.Host.{now, Host, Action, sdo_read, success}
use canopen_slave_tester.Sdo.{read_remote_sdo}
use canopen_slave_tester.Time.{
  time_diagnostic_index, milliseconds_per_day, TimeDiagnostic, TimeSession, read_noted,
  read_rx_count, coherent, snapshot_attempt, read_time_diagnostic,
}

module _ (h : Host) where
  -- A read that gives a value is a success with this value, logged as the newest action.
  read_noted-log :
      (width index subindex : ℕ) (s : TimeSession) (v : ℕ)
      → (read_noted h width index subindex s).0 ≡ some v
      → (read_noted h width index subindex s).1.session.log
        ≡ sdo_read index subindex success v ∷ s.session.log
  unfolding read_noted read_remote_sdo
  read_noted-log width index subindex s v e = ground (arith, e)

  -- The newest actions are the five reads of one attempt, all successful, with one count before and
  -- after, one day before and after, and milliseconds of a day between.
  unfoldable pub IsCoherent : TimeDiagnostic → List Action → Type 0
  IsCoherent d log =
      (d.milliseconds < milliseconds_per_day)
      × ((earlier : List Action) × (log
            ≡ sdo_read time_diagnostic_index 1 success d.rx_count
              ∷ sdo_read time_diagnostic_index 3 success d.days
              ∷ sdo_read time_diagnostic_index 2 success d.milliseconds
              ∷ sdo_read time_diagnostic_index 3 success d.days
              ∷ sdo_read time_diagnostic_index 1 success d.rx_count
              ∷ earlier))

  coherent-means :
      (c c' ms days days' at : ℕ) (d : TimeDiagnostic)
      → coherent h c c' ms days days' at ≡ some (some d)
      → (ms < milliseconds_per_day)
        × (d.milliseconds ≡ ms)
        × (d.rx_count ≡ c)
        × (d.rx_count ≡ c')
        × (d.days ≡ days)
        × (d.days ≡ days')
  unfolding coherent
  coherent-means c c' ms days days' at d e = ground (arith, e)

  snapshot_attempt-IsCoherent :
      (s : TimeSession) (d : TimeDiagnostic)
      → (snapshot_attempt h s).0 ≡ some (some d)
      → IsCoherent d (snapshot_attempt h s).1.session.log
  unfolding snapshot_attempt read_rx_count IsCoherent
  snapshot_attempt-IsCoherent s d e =
      let i = time_diagnostic_index in
      let r1 = read_noted h 32 i 1 s in
      let r2 = read_noted h 16 i 3 r1.1 in
      let r3 = read_noted h 32 i 2 r2.1 in
      let r4 = read_noted h 16 i 3 r3.1 in
      let r5 = read_noted h 32 i 1 r4.1 in
      elim (Option-cases r1.0) [
        | inl m ↦ absurd (ground (arith, e, m))
        | inr (c, q1) ↦ elim (Option-cases r2.0) [
          | inl m ↦ absurd (ground (arith, e, q1, m))
          | inr (days, q2) ↦ elim (Option-cases r3.0) [
            | inl m ↦ absurd (ground (arith, e, q1, q2, m))
            | inr (ms, q3) ↦ elim (Option-cases r4.0) [
              | inl m ↦ absurd (ground (arith, e, q1, q2, q3, m))
              | inr (days', q4) ↦ elim (Option-cases r5.0) [
                | inl m ↦ absurd (ground (arith, e, q1, q2, q3, q4, m))
                | inr (c', q5) ↦
                    let all : coherent h c c' ms days days' (now h r3.1.session) ≡ some (some d) =
                      ground (arith, e, q1, q2, q3, q4, q5) in
                    let l1 = read_noted-log 32 i 1 s c q1 in
                    let l2 = read_noted-log 16 i 3 r1.1 days q2 in
                    let l3 = read_noted-log 32 i 2 r2.1 ms q3 in
                    let l4 = read_noted-log 16 i 3 r3.1 days' q4 in
                    let l5 = read_noted-log 32 i 1 r4.1 c' q5 in
                    let (b, m, a1, a2, b1, b2) =
                      coherent-means c c' ms days days' (now h r3.1.session) d all in
                    let end : (snapshot_attempt h s).1 ≡ r5.1 =
                      ground (arith, q1, q2, q3, q4, q5) in
                    let logged = ap (λ (q : TimeSession). q.session.log) end in
                    (ground (arith, b, m), (s.session.log, cc))
              ]
            ]
          ]
        ]
      ]

  -- A snapshot that is given has been read coherently, whatever the number of attempts: the last five
  -- reads are of the count, the day, the milliseconds, the day and the count, they succeeded, the two
  -- counts and the two days agree, the snapshot holds the values read, and the milliseconds are less
  -- than a day.
  pub read_time_diagnostic-IsCoherent :
      (attempts : ℕ) (s : TimeSession) (d : TimeDiagnostic)
      → (read_time_diagnostic h attempts s).0 ≡ some d
      → IsCoherent d (read_time_diagnostic h attempts s).1.session.log
  unfolding read_time_diagnostic
  read_time_diagnostic-IsCoherent zero s d e = absurd (ground (arith, e))
  read_time_diagnostic-IsCoherent (suc n) s d e =
      let a = snapshot_attempt h s in
      elim (Option-cases a.0) [
        | inl q ↦ absurd (ground (arith, e, q))
        | inr (o, q) ↦ elim (Option-cases o) [
          | inl changed ↦
              let same : read_time_diagnostic h (suc n) s ≡ read_time_diagnostic h n a.1 =
                ground (arith, q, changed) in
              let given = ap (λ (r : Option TimeDiagnostic × TimeSession). r.0) (sym same) ∙ e in
              rw same (read_time_diagnostic-IsCoherent n a.1 d given)
          | inr (d', found) ↦
              let same : read_time_diagnostic h (suc n) s ≡ (some d', a.1) =
                ground (arith, q, found) in
              let given : some d' ≡ some d =
                ap (λ (r : Option TimeDiagnostic × TimeSession). r.0) (sym same) ∙ e in
              let whole : a.0 ≡ some (some d) = q ∙ ap some found ∙ ap some given in
              rw same (snapshot_attempt-IsCoherent s d whole)
        ]
      ]
