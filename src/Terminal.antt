-- ===== src/Terminal.antt =====
-- common/terminal.c, common/drm.c, common/evdev.c, common/hidraw.c and common/wscons.c, in their Linux
-- variants: the ioctls on terminals and devices, and the device types that a path can have.
use Prim.Native.String.{String}
use Prim.Native.Char.{code}
use dde_seatd.Prelude.{
  ℕ, zero, suc, ◌+◌, ◌-◌, ◌/◌, ◌%◌, [], ◌∷◌, ◌++◌, Option, none, some, Bool, true, false, ◌==◌,
  ◌&&◌, if◌then◌else◌, take, ℤ, pos, negsuc, is_nonneg, St, Status, ok, fail, ltb,
}
use dde_seatd.Kernel.{
  Bytes, Call, open_tty, vt_openqry, vt_getstate, vt_setmode, vt_activate, vt_reldisp,
  kd_set_keyboard, kd_set_graphics, drm_set_master_ioctl, drm_drop_master_ioctl,
  drm_auth_magic_ioctl, evdev_revoke_ioctl, hidraw_revoke_ioctl, Sys, enoent, eacces, einval, check,
  set_errno, syscall,
}

-- The code points of a text: its bytes, as these are ASCII.
abbrev pub codes : String → Bytes
codes String.[] = []
codes (String.◌∷◌ c s) = code c ∷ codes s

-- `%d` of a number that is not negative: its decimal digits, in front of `rest`.
unfoldable pub decimal : ℕ → ℕ → Bytes → Bytes
decimal zero n rest = rest
decimal (suc fuel) n rest =
    let digit = b'0' + n % 10 in
    let more = decimal fuel (n / 10) (digit ∷ rest) in if ltb n 10 then digit ∷ rest else more

-- TTYPATHLEN, with the byte that `snprintf` keeps for the terminator
abbrev tty_path_len : ℕ
tty_path_len = 16

-- `snprintf` cuts off what does not fit. An `int` has ten digits at most.
unfoldable pub get_tty_path : ℕ → Bytes
unfolding decimal
get_tty_path tty = take (tty_path_len - 1) (codes "/dev/tty" ++ decimal 10 tty [])

abbrev pub to_nat : ℤ → ℕ
to_nat (pos n) = n
to_nat (negsuc n) = 0

unfoldable pub terminal_open : ℤ → St Sys (Option ℕ)
unfolding check
terminal_open vt s = syscall (open_tty (get_tty_path (to_nat vt))) (check (is_nonneg vt) s)

-- 0 or -1 of an ioctl
abbrev status_of : Option ℕ → Status
status_of none = fail
status_of (some n) = ok

abbrev ioctl : Call → St Sys Status
ioctl c s = (status_of (syscall c s).0, (syscall c s).1)

unfoldable pub terminal_find_available : ℕ → St Sys (Option ℕ)
terminal_find_available fd s =
    let (r, s') = syscall (vt_openqry fd) s in
    elim r [
      | none ↦ (none, s')
      | some vt ↦ if vt == 0 then (none, set_errno enoent s') else (some vt, s')
    ]

unfoldable pub terminal_current_vt : ℕ → St Sys (Option ℕ)
terminal_current_vt fd = syscall (vt_getstate fd)

unfoldable pub terminal_set_process_switching : ℕ → Bool → St Sys Status
terminal_set_process_switching fd enable = ioctl (vt_setmode fd enable)

unfoldable pub terminal_switch_vt : ℕ → ℕ → St Sys Status
terminal_switch_vt fd vt = ioctl (vt_activate fd vt)

unfoldable pub terminal_ack_release : ℕ → St Sys Status
terminal_ack_release fd = ioctl (vt_reldisp fd true)

unfoldable pub terminal_ack_acquire : ℕ → St Sys Status
terminal_ack_acquire fd = ioctl (vt_reldisp fd false)

unfoldable pub terminal_set_keyboard : ℕ → Bool → St Sys Status
terminal_set_keyboard fd enable = ioctl (kd_set_keyboard fd enable)

unfoldable pub terminal_set_graphics : ℕ → Bool → St Sys Status
terminal_set_graphics fd enable = ioctl (kd_set_graphics fd enable)

unfoldable pub drm_set_master : ℕ → St Sys Status
drm_set_master fd = ioctl (drm_set_master_ioctl fd)

unfoldable pub drm_drop_master : ℕ → St Sys Status
drm_drop_master fd = ioctl (drm_drop_master_ioctl fd)

-- 1, 0 and -1
pub data Master : Type 0 where
  is_master not_master unknown : Master

unfoldable pub drm_is_master : ℕ → St Sys Master
drm_is_master fd s =
    let (r, s') = syscall (drm_auth_magic_ioctl fd) s in
    elim r [
      | some n ↦ (is_master, s')
      | none ↦ (
        if s'.errno == eacces
            then not_master
            else if s'.errno == einval
            then is_master
            else unknown,
        s',
      )
    ]

unfoldable pub evdev_revoke : ℕ → St Sys Status
evdev_revoke fd = ioctl (evdev_revoke_ioctl fd)

unfoldable pub hidraw_revoke : ℕ → St Sys Status
hidraw_revoke fd = ioctl (hidraw_revoke_ioctl fd)

-- `strncmp(prefix, path, strlen(prefix)) == 0`
unfoldable pub has_prefix : Bytes → Bytes → Bool
has_prefix [] path = true
has_prefix (x ∷ xs) [] = false
has_prefix (x ∷ xs) (y ∷ ys) = x == y && has_prefix xs ys

unfoldable pub path_is_drm : Bytes → Bool
unfolding has_prefix
path_is_drm = has_prefix (codes "/dev/dri/")

unfoldable pub path_is_evdev : Bytes → Bool
unfolding has_prefix
path_is_evdev = has_prefix (codes "/dev/input/event")

unfoldable pub path_is_hidraw : Bytes → Bool
unfolding has_prefix
path_is_hidraw = has_prefix (codes "/dev/hidraw")

unfoldable pub path_is_wscons : Bytes → Bool
path_is_wscons path = false
