-- ===== src/Ntp/Runs.antt =====
-- What an NTP client reports, whatever calls to start and stop it were made before.
use ungula_lib_net.Base.{
  ℕ, ◌≤◌, ◌<◌, ◌≡◌, ◌↔◌, refl, ◌∙◌, ap, Bool, true, false, List, [], ◌∷◌, Option, none, some, arith,
}
use ungula_lib_net.Ntp.Format.{local_late, local_early}
use ungula_lib_net.Ntp.{
  pos, ◌+ℤ◌, NtpConfig, Sntp, NtpClient, year_2020, ntp_is_synced, ntp_epoch, ntp_local_epoch,
  ntp_init, ntp_stop,
}

pub data Call : Type 0 where
  start : NtpConfig → Call
  stop : Call

-- What esp_sntp documents: the service runs from its start to its stop.
pub record IsSntp {D : Type 0} (s : Sntp D) : Type 0 where
  pub up : D → Bool
  pub up-sntp_init : (d : D) → up (s.sntp_init d) ≡ true
  pub up-sntp_stop : (d : D) → up (s.sntp_stop d) ≡ false

-- The configuration in force after some calls: that of the start that found none in force.
unfoldable pub step_force : Option NtpConfig → Call → Option NtpConfig
step_force o stop = none
step_force none (start c) = some c
step_force (some c0) (start c) = some c0

unfoldable pub force : Option NtpConfig → List Call → Option NtpConfig
unfolding step_force
force o [] = o
force o (k ∷ ks) = force (step_force o k) ks

module _ {D : Type 0} ⦃s : Sntp D⦄ where
  pub call : Call → NtpClient D → NtpClient D
  unfolding ntp_init ntp_stop
  call (start c) n = ntp_init c n
  call stop n = ntp_stop n

  pub run : NtpClient D → List Call → NtpClient D
  unfolding call
  run n [] = n
  run n (k ∷ ks) = run (call k n) ks

module _ {D : Type 0} ⦃s : Sntp D⦄ (l : IsSntp s) where
  abbrev Agrees : Option NtpConfig → NtpClient D → Type 0
  Agrees none n = (n.initialised ≡ false) × (l.up n.sntp ≡ false)
  Agrees (some c) n =
      (n.initialised ≡ true) × (l.up n.sntp ≡ true) × (n.utc_offset ≡ c.utc_offset_seconds)

  call-Agrees :
      (k : Call) (o : Option NtpConfig) (n : NtpClient D)
      → Agrees o n
      → Agrees (step_force o k) (call k n)
  unfolding call step_force ntp_init ntp_stop
  call-Agrees (start c) none n (off, down) = rw off (refl, l.up-sntp_init _, refl)
  call-Agrees (start c) (some c0) n (on, up, same) = rw on (refl, up, same)
  call-Agrees stop none n (off, down) = rw off (refl, down)
  call-Agrees stop (some c0) n (on, up, same) = rw on (refl, l.up-sntp_stop n.sntp)

  run-Agrees :
      (ks : List Call) (o : Option NtpConfig) (n : NtpClient D)
      → Agrees o n
      → Agrees (force o ks) (run n ks)
  unfolding run force
  run-Agrees [] o n a = a
  run-Agrees (k ∷ ks) o n a = run-Agrees ks (step_force o k) (call k n) (call-Agrees k o n a)

  -- What is read of a client at a time.
  abbrev Reads : Option NtpConfig → ℕ → NtpClient D → Type 0
  Reads none now n =
      (l.up n.sntp ≡ false)
      × (ntp_is_synced now n ≡ false)
      × (year_2020 ≤ now → ntp_epoch now n ≡ now)
  Reads (some c) now n =
      (l.up n.sntp ≡ true)
      × ((ntp_is_synced now n ≡ true) ↔ (year_2020 < now))
      × (year_2020 ≤ now → ntp_local_epoch now n ≡ pos now +ℤ c.utc_offset_seconds)
      × (now < year_2020 → ntp_local_epoch now n ≡ pos 0)

  epoch_late : (now : ℕ) (n : NtpClient D) → year_2020 ≤ now → ntp_epoch now n ≡ now
  unfolding ntp_epoch
  epoch_late now n late = ground arith

  Agrees-Reads : (o : Option NtpConfig) (now : ℕ) (n : NtpClient D) → Agrees o n → Reads o now n
  unfolding ntp_is_synced
  Agrees-Reads none now n (off, down) = (down, ground arith, epoch_late now n)
  Agrees-Reads (some c) now n (on, up, same) = (
    up,
    ground arith,
    λ late. local_late now n late ∙ ap (λ o. pos now +ℤ o) same,
    local_early now n,
  )

  -- Whatever starts and stops were called on a client that was not running, in any order and however
  -- often, the service runs exactly while a configuration is in force, which is that of the first
  -- start since the last stop. Without one the client is never synchronised, though
  -- from 2020 on its epoch is the clock's. With one it is
  -- synchronised exactly if the clock is past the first second of 2020, and the local time is the
  -- clock's plus the offset of that configuration, or 0 before 2020.
  pub run-Reads :
      (ks : List Call) (now : ℕ) (n : NtpClient D)
      → n.initialised ≡ false
      → l.up n.sntp ≡ false
      → Reads (force none ks) now (run n ks)
  run-Reads ks now n off down =
      Agrees-Reads (force none ks) now (run n ks) (run-Agrees ks none n (off, down))
