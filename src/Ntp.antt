-- ===== src/Ntp.antt =====
-- src/ntp/ntp_client.cpp and ntp_client.h as built for ESP_PLATFORM, over the SNTP service of
-- ESP-IDF. The system clock that time() reads is the argument `now`, in seconds.
pub mod Desktop
pub mod Runs
pub mod Format
mod Tests
use ungula_lib_net.Calendar.{gmtime, strftime}
use ungula_lib_net.Base.{
  ℕ, suc, ◌+◌, ◌-◌, ◌*◌, Bool, true, false, not, ◌&&◌, List, [], Option, none, some, ltb, ◌==◌,
  if◌then◌else◌, u32,
}

-- Signed numbers, for an offset and for a local time, which may lie before 1970.
pub data ℤ : Type 0 where
  pos negsuc : ℕ → ℤ

abbrev pub sub_nat : ℕ → ℕ → ℤ
sub_nat m n = if ltb m n then negsuc (n - m - 1) else pos (m - n)

infix 50 ◌+ℤ◌
abbrev pub ◌+ℤ◌ : ℤ → ℤ → ℤ
pos m +ℤ pos n = pos (m + n)
pos m +ℤ negsuc n = sub_nat m (suc n)
negsuc m +ℤ pos n = sub_nat n (suc m)
negsuc m +ℤ negsuc n = negsuc (suc (m + n))

pub record NtpConfig : Type 0 where
  pub server : List ℕ
  pub fallback_server : Option (List ℕ)
  pub utc_offset_seconds : ℤ
  pub sync_interval_sec : ℕ

-- The calls of esp_sntp; a server is named in a slot, and the interval is in milliseconds.
pub record Sntp (D : Type 0) : Type 0 where
  pub set_poll_mode : D → D
  pub set_server_name : ℕ → List ℕ → D → D
  pub set_sync_interval : ℕ → D → D
  pub sntp_init : D → D
  pub sntp_stop : D → D

-- The static variables, with the service.
pub record NtpClient (D : Type 0) : Type 0 where
  pub sntp : D
  pub utc_offset : ℤ
  pub initialised : Bool

-- 2020-01-01 00:00:00 UTC.
abbrev pub year_2020 : ℕ
year_2020 = 1577836800

module _ {D : Type 0} where
  unfoldable pub ntp_is_synced : ℕ → NtpClient D → Bool
  ntp_is_synced now n = n.initialised && ltb year_2020 now

  unfoldable pub ntp_epoch : ℕ → NtpClient D → ℕ
  ntp_epoch now n = if ltb now year_2020 then 0 else now

  unfoldable pub ntp_local_epoch : ℕ → NtpClient D → ℤ
  unfolding ntp_epoch
  ntp_local_epoch now n =
      let utc = ntp_epoch now n in if utc == 0 then pos 0 else pos utc +ℤ n.utc_offset

-- The seconds from 1570 to 1970, a cycle of 146097 days.
abbrev pub cycle : ℕ
cycle = 12622780800

abbrev pub since_1570 : ℤ → ℕ
since_1570 (pos n) = cycle + n
since_1570 (negsuc n) = cycle - suc n

abbrev pub is_zero_time : ℤ → Bool
is_zero_time (pos n) = n == 0
is_zero_time (negsuc n) = false

module _ {D : Type 0} where
  -- The text in the buffer, whose length is returned; it is empty where 0 is.
  unfoldable pub ntp_format_local : ℕ → ℕ → NtpClient D → List ℕ
  ntp_format_local size now n =
      let local = ntp_local_epoch now n in
      if ltb size 20
      then []
      else if is_zero_time local
      then []
      else strftime size (gmtime (since_1570 local))

module _ {D : Type 0} ⦃s : Sntp D⦄ where
  abbrev pub set_fallback : Option (List ℕ) → D → D
  set_fallback none d = d
  set_fallback (some name) d = s.set_server_name 1 name d

  unfoldable pub ntp_init : NtpConfig → NtpClient D → NtpClient D
  ntp_init config n =
      if n.initialised
      then n
      else (let d1 = s.set_server_name 0 config.server (s.set_poll_mode n.sntp) in
          let d2 = set_fallback config.fallback_server d1 in
          let d3 = s.set_sync_interval (u32 (config.sync_interval_sec * 1000)) d2 in
          record n {
            sntp = s.sntp_init d3;
            utc_offset = config.utc_offset_seconds;
            initialised = true;
          })

  unfoldable pub ntp_stop : NtpClient D → NtpClient D
  ntp_stop n =
      if n.initialised then record n { sntp = s.sntp_stop n.sntp; initialised = false } else n
