-- ===== src/GuestExec/Keys.antt =====
-- The keys of the two maps: execution ids and slots.
use gha_mac_broker.Prelude.{ℕ, String, str_eq, eq_iff, ◌==◌, ==_iff}
use gha_mac_broker.GuestExec.Maps.{Key}

instance abbrev pub id_key : Key String
id_key = record { same = str_eq; same_iff = eq_iff }

instance abbrev pub slot_key : Key ℕ
slot_key = record { same = ◌==◌; same_iff = ==_iff }
