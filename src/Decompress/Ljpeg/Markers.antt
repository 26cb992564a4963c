-- ===== src/Decompress/Ljpeg/Markers.antt =====
-- src/decompress/ljpeg.rs: the codes of the markers, and how `process_tables` sorts them.
use libopenraw.Prelude.{ℕ, Bool, false, ◌||◌, List, [], ◌∷◌, ◌==◌, if◌then◌else◌}

abbrev pub m_sof0 : ℕ
m_sof0 = 0xc0

abbrev pub m_sof1 : ℕ
m_sof1 = 0xc1

abbrev pub m_sof2 : ℕ
m_sof2 = 0xc2

abbrev pub m_sof3 : ℕ
m_sof3 = 0xc3

abbrev pub m_sof5 : ℕ
m_sof5 = 0xc5

abbrev pub m_sof6 : ℕ
m_sof6 = 0xc6

abbrev pub m_sof7 : ℕ
m_sof7 = 0xc7

abbrev pub m_jpg : ℕ
m_jpg = 0xc8

abbrev pub m_sof9 : ℕ
m_sof9 = 0xc9

abbrev pub m_sof10 : ℕ
m_sof10 = 0xca

abbrev pub m_sof11 : ℕ
m_sof11 = 0xcb

abbrev pub m_sof13 : ℕ
m_sof13 = 0xcd

abbrev pub m_sof14 : ℕ
m_sof14 = 0xce

abbrev pub m_sof15 : ℕ
m_sof15 = 0xcf

abbrev pub m_dht : ℕ
m_dht = 0xc4

abbrev pub m_rst0 : ℕ
m_rst0 = 0xd0

abbrev pub m_rst1 : ℕ
m_rst1 = 0xd1

abbrev pub m_rst2 : ℕ
m_rst2 = 0xd2

abbrev pub m_rst3 : ℕ
m_rst3 = 0xd3

abbrev pub m_rst4 : ℕ
m_rst4 = 0xd4

abbrev pub m_rst5 : ℕ
m_rst5 = 0xd5

abbrev pub m_rst6 : ℕ
m_rst6 = 0xd6

abbrev pub m_rst7 : ℕ
m_rst7 = 0xd7

abbrev pub m_soi : ℕ
m_soi = 0xd8

abbrev pub m_eoi : ℕ
m_eoi = 0xd9

abbrev pub m_sos : ℕ
m_sos = 0xda

abbrev pub m_dqt : ℕ
m_dqt = 0xdb

abbrev pub m_dri : ℕ
m_dri = 0xdd

abbrev pub m_app0 : ℕ
m_app0 = 0xe0

abbrev pub m_tem : ℕ
m_tem = 0x1

abbrev pub is_any : ℕ → List ℕ → Bool
is_any c [] = false
is_any c (m ∷ ms) = (c == m) || is_any c ms

-- The markers that `process_tables` returns to its caller.
abbrev pub returned : List ℕ
returned =
    m_sof0 ∷ m_sof1 ∷ m_sof2 ∷ m_sof3 ∷ m_sof5 ∷ m_sof6 ∷ m_sof7 ∷ m_jpg ∷ m_sof9 ∷ m_sof10
    ∷ m_sof11 ∷ m_sof13 ∷ m_sof14 ∷ m_sof15 ∷ m_soi ∷ m_eoi ∷ m_sos ∷ []

-- The markers without parameters.
abbrev pub parameterless : List ℕ
parameterless = m_rst0 ∷ m_rst1 ∷ m_rst2 ∷ m_rst3 ∷ m_rst4 ∷ m_rst5 ∷ m_rst6 ∷ m_rst7 ∷ m_tem ∷ []

pub data Action : Type 0 where
  to_return read_dht warn read_dri read_app0 skip_segment : Action

-- The `match` of `process_tables`.
unfoldable pub action : ℕ → Action
action c =
    if is_any c returned
    then to_return
    else if c == m_dht
    then read_dht
    else if c == m_dqt
    then warn
    else if c == m_dri
    then read_dri
    else if c == m_app0
    then read_app0
    else if is_any c parameterless
    then warn
    else skip_segment
