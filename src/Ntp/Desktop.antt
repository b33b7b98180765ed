-- ===== src/Ntp/Desktop.antt =====
-- src/ntp/ntp_client.cpp as built for desktop tests: a stub that is never synchronised.
use ungula_lib_net.Base.{ℕ, ◌<◌, ◌≡◌, Bool, false, List, [], arith}
use ungula_lib_net.Ntp.{ℤ, pos, NtpConfig, NtpClient, year_2020}
use ungula_lib_net.Ntp

-- The static variable `s_utcOffset`.
pub record Desktop : Type 0 where
  pub utc_offset : ℤ

unfoldable pub ntp_init : NtpConfig → Desktop → Desktop
ntp_init config d = record d { utc_offset = config.utc_offset_seconds }

unfoldable pub ntp_stop : Desktop → Desktop
ntp_stop d = d

unfoldable pub ntp_is_synced : Desktop → Bool
ntp_is_synced d = false

unfoldable pub ntp_epoch : Desktop → ℕ
ntp_epoch d = 0

unfoldable pub ntp_local_epoch : Desktop → ℤ
ntp_local_epoch d = pos 0

-- The text in the buffer, whose length is returned; it is empty where 0 is.
unfoldable pub ntp_format_local : ℕ → Desktop → List ℕ
ntp_format_local size d = []

-- The stub answers as the client of a node does while the node's clock stands before 2020.
pub stub_as_unset :
    {D : Type 0} (n : NtpClient D) (d : Desktop) (now size : ℕ)
    → now < year_2020
    → (Ntp.ntp_is_synced now n ≡ ntp_is_synced d)
      × (Ntp.ntp_epoch now n ≡ ntp_epoch d)
      × (Ntp.ntp_local_epoch now n ≡ ntp_local_epoch d)
      × (Ntp.ntp_format_local size now n ≡ ntp_format_local size d)
unfolding ntp_is_synced ntp_epoch ntp_local_epoch ntp_format_local Ntp.ntp_is_synced Ntp.ntp_epoch
    Ntp.ntp_local_epoch Ntp.ntp_format_local
stub_as_unset n d now size unset = ground arith
