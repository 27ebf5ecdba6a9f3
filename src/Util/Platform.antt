-- ===== src/Util/Platform.antt =====
-- util/common.go: the operating system's name, and small functions on numbers.
use flow_agent_x.Prelude.{ℕ, ◌/◌, Bool, if◌then◌else◌, Text, codes, text_eq}

-- runtime.GOOS is the argument.
unfoldable pub is_mac : Text → Bool
is_mac goos = text_eq goos (codes "darwin")

unfoldable pub is_windows : Text → Bool
is_windows goos = text_eq goos (codes "windows")

unfoldable pub is_linux : Text → Bool
is_linux goos = text_eq goos (codes "linux")

unfoldable pub os_name : Text → Text
unfolding is_mac is_windows is_linux text_eq
os_name goos =
    if is_mac goos
    then codes "MAC"
    else if is_windows goos
    then codes "WIN"
    else if is_linux goos
    then codes "LINUX"
    else codes "UNKNOWN"

unfoldable pub byte_to_mb : ℕ → ℕ
byte_to_mb bytes = bytes / 1024 / 1024
