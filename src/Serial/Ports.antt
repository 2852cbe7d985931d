-- ===== src/Serial/Ports.antt =====
-- crates/mavlink-io/src/serial.rs: the ports by their vendor, their product and their name. Which ports
-- the system lists is given, and whether a path exists.
use hitl_daemon.Base.{
  ℕ, zero, suc, ◌-◌, Bool, false, not, ◌&&◌, ◌||◌, ◌==◌, leb, if◌then◌else◌, Option, none, some,
  List, [], ◌∷◌, ◌++◌, map, any_of,
}
use hitl_daemon.Handler.Shell.{starts_with, same_bytes}
use hitl_daemon.Board.Nsh.{contains}

-- VID_3DR, VID_NXP, VID_HOLYBRO_1 and VID_HOLYBRO_2.
abbrev vid_3dr : ℕ
vid_3dr = 9900

abbrev vid_nxp : ℕ
vid_nxp = 8137

abbrev vid_holybro_1 : ℕ
vid_holybro_1 = 11694

abbrev vid_holybro_2 : ℕ
vid_holybro_2 = 12642

unfoldable pub is_pixhawk_vid : ℕ → Bool
is_pixhawk_vid vid =
    vid == vid_3dr || vid == vid_nxp || vid == vid_holybro_1 || vid == vid_holybro_2

-- `to_ascii_uppercase` of a byte.
abbrev uppercase : ℕ → ℕ
uppercase b = if leb 97 b && leb b 122 then b - 32 else b

-- "PX4 BL" and "BOOTLOADER".
abbrev px4_bl : List ℕ
px4_bl = 80 ∷ 88 ∷ 52 ∷ 32 ∷ 66 ∷ 76 ∷ []

abbrev bootloader_word : List ℕ
bootloader_word = 66 ∷ 79 ∷ 79 ∷ 84 ∷ 76 ∷ 79 ∷ 65 ∷ 68 ∷ 69 ∷ 82 ∷ []

unfoldable pub is_bootloader_product : Option (List ℕ) → Bool
is_bootloader_product none = false
is_bootloader_product (some product) =
    contains (map uppercase product) px4_bl || contains (map uppercase product) bootloader_word

-- "Bluetooth", "bluetooth", "debug-console", "wlan-debug", "SOC", "MALS" and "AirPods".
abbrev excluded_fragments : List (List ℕ)
excluded_fragments =
    (66 ∷ 108 ∷ 117 ∷ 101 ∷ 116 ∷ 111 ∷ 111 ∷ 116 ∷ 104 ∷ [])
    ∷ (98 ∷ 108 ∷ 117 ∷ 101 ∷ 116 ∷ 111 ∷ 111 ∷ 116 ∷ 104 ∷ [])
    ∷ (100 ∷ 101 ∷ 98 ∷ 117 ∷ 103 ∷ 45 ∷ 99 ∷ 111 ∷ 110 ∷ 115 ∷ 111 ∷ 108 ∷ 101 ∷ [])
    ∷ (119 ∷ 108 ∷ 97 ∷ 110 ∷ 45 ∷ 100 ∷ 101 ∷ 98 ∷ 117 ∷ 103 ∷ [])
    ∷ (83 ∷ 79 ∷ 67 ∷ [])
    ∷ (77 ∷ 65 ∷ 76 ∷ 83 ∷ [])
    ∷ (65 ∷ 105 ∷ 114 ∷ 80 ∷ 111 ∷ 100 ∷ 115 ∷ [])
    ∷ []

unfoldable pub is_excluded_port : List ℕ → Bool
is_excluded_port port_name = any_of (contains port_name) excluded_fragments

-- "/dev/cu." and "/dev/tty.".
abbrev dev_cu : List ℕ
dev_cu = 47 ∷ 100 ∷ 101 ∷ 118 ∷ 47 ∷ 99 ∷ 117 ∷ 46 ∷ []

abbrev dev_tty : List ℕ
dev_tty = 47 ∷ 100 ∷ 101 ∷ 118 ∷ 47 ∷ 116 ∷ 116 ∷ 121 ∷ 46 ∷ []

-- `replace` of the one by the other; the number counts the bytes of a match that are still to pass.
unfoldable pub replace_from : ℕ → List ℕ → List ℕ
replace_from skip [] = []
replace_from (suc skip) (b ∷ text) = replace_from skip text
replace_from zero (b ∷ text) =
    let matched = replace_from 7 text in
    let passed = replace_from 0 text in
    if starts_with dev_cu (b ∷ text) then dev_tty ++ matched else b ∷ passed

pub record UsbPortInfo : Type 0 where
  pub name : List ℕ
  pub vid : ℕ
  pub product : Option (List ℕ)

pub record PixhawkScan : Type 0 where
  pub ready : List (List ℕ)
  pub bootloader : List (List ℕ)

-- A listed port: on USB, or of another kind.
pub data Listed : Type 0 where
  usb_port : UsbPortInfo → Listed
  other_port : List ℕ → Listed

-- `contains` of a list of names.
abbrev pub has_name : List (List ℕ) → List ℕ → Bool
has_name names name = any_of (same_bytes name) names

abbrev pub push_name : List (List ℕ) → List ℕ → List (List ℕ)
push_name names name = if has_name names name then names else names ++ name ∷ []

abbrev pub usb_ports : List Listed → List UsbPortInfo
usb_ports [] = []
usb_ports (usb_port port ∷ rest) = port ∷ usb_ports rest
usb_ports (other_port name ∷ rest) = usb_ports rest

module _ (on_macos : Bool) (exists : List ℕ → Bool) where
  unfoldable pub maybe_prefer_tty : List ℕ → List ℕ
  maybe_prefer_tty port =
      if on_macos && (starts_with dev_cu port && exists (replace_from 0 port))
      then replace_from 0 port
      else port

  -- One turn of the loop over the ports.
  abbrev pub classify : PixhawkScan → UsbPortInfo → PixhawkScan
  classify scan port =
      if not (is_pixhawk_vid port.vid)
      then scan
      else if is_bootloader_product port.product
      then record scan { bootloader = push_name scan.bootloader (maybe_prefer_tty port.name) }
      else record scan { ready = push_name scan.ready (maybe_prefer_tty port.name) }

  unfoldable pub classify_from : PixhawkScan → List UsbPortInfo → PixhawkScan
  classify_from scan [] = scan
  classify_from scan (port ∷ ports) = classify_from (classify scan port) ports

  unfoldable pub classify_ports : List UsbPortInfo → PixhawkScan
  classify_ports ports = classify_from (record { ready = []; bootloader = [] }) ports

  -- `none` when the ports cannot be listed.
  unfoldable pub find_pixhawk_ports : Option (List Listed) → PixhawkScan
  find_pixhawk_ports none = record { ready = []; bootloader = [] }
  find_pixhawk_ports (some ports) = classify_ports (usb_ports ports)

  abbrev pub is_candidate : UsbPortInfo → Bool
  is_candidate port =
      not (is_pixhawk_vid port.vid)
      && (not (is_bootloader_product port.product) && not (is_excluded_port port.name))

  unfoldable pub candidates_from : List (List ℕ) → List UsbPortInfo → List (List ℕ)
  candidates_from names [] = names
  candidates_from names (port ∷ ports) =
      candidates_from
        (if is_candidate port then push_name names (maybe_prefer_tty port.name) else names) ports

  unfoldable pub candidate_probe_ports : Option (List Listed) → List (List ℕ)
  candidate_probe_ports none = []
  candidate_probe_ports (some ports) = candidates_from [] (usb_ports ports)
