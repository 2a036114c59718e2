-- ===== src/Wlan/Storage.antt =====
-- wlan_config.c: the configuration in a file of the serial flash. The vendor's file system and how
-- the compiler lays a configuration out in memory are parameters.
use bigblackhardware.Base.{
  ℕ, Option, some, List, if◌then◌else◌, ◌>>=◌, ℤ, pos, negative, i8, length, copy?,
}
use bigblackhardware.Wlan.{WlanConfig}

pub data FsMode : Type 0 where
  create_file : ℕ → FsMode
  read_file : FsMode

-- sl_FsOpen with its status and the handle that it stores, if it stores one, sl_FsWrite and
-- sl_FsRead at offset 0, which return a number of bytes or an error, and sl_FsClose.
pub record Fs (F : Type 0) : Type 0 where
  pub fs_open : FsMode → F → ℤ × Option ℕ × F
  pub fs_write : ℕ → List ℕ → F → ℤ × F
  pub fs_read : (handle n : ℕ) → F → ℤ × List ℕ × F
  pub fs_close : ℕ → F → F

-- The bytes of a configuration, and the configuration that bytes are.
pub record Layout : Type 0 where
  pub to_bytes : WlanConfig → List ℕ
  pub of_bytes : List ℕ → WlanConfig

abbrev pub config_file_msize : ℕ
config_file_msize = 256

module _ {F : Type 0} (fs : Fs F) (layout : Layout) where
  -- The label exit: a handle that was never stored is not initialised. A status that is not
  -- negative is not returned.
  abbrev pub close_file : {A : Type 0} → Option ℕ → ℤ → A → F → Option (ℤ × A × F)
  close_file handle status a f = do
    h ← handle
    some ((if negative status then status else pos 0), a, fs.fs_close h f)

  unfoldable pub wlan_save_config : WlanConfig → F → Option (ℤ × F)
  wlan_save_config config f = do
    let (opened, handle, f1) = fs.fs_open (create_file config_file_msize) f
    let write = (do
      h ← handle
      let (written, f2) = fs.fs_write h (layout.to_bytes config) f1
      close_file handle (i8 written) tt f2)
    (status, _, f3) ← (if negative (i8 opened) then close_file handle (i8 opened) tt f1 else write)
    some (status, f3)

  -- sl_FsRead overwrites the first bytes of the configuration.
  unfoldable pub wlan_load_config : WlanConfig → F → Option (ℤ × WlanConfig × F)
  wlan_load_config config f = do
    let (opened, handle, f1) = fs.fs_open read_file f
    let read = (do
      h ← handle
      let old = layout.to_bytes config
      let (count, bytes, f2) = fs.fs_read h (length old) f1
      new ← copy? old bytes
      close_file handle (i8 count) (layout.of_bytes new) f2)
    if negative (i8 opened) then close_file handle (i8 opened) config f1 else read
