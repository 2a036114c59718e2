-- ===== src/Wlan/Saved.antt =====
-- What is saved is what is loaded, over any file system that keeps what is written.
use bigblackhardware.Base.{
  ℕ, ◌<◌, ◌≡◌, ◌∙◌, ◌⊎◌, refl, true, some, Option, List, [], ℤ, pos, negsuc, negative, i8, length,
  copy?-whole, arith, inl, inr, sym,
}
use bigblackhardware.Wlan.{WlanConfig, max_ssid_length, max_pwd_length}
use bigblackhardware.Wlan.Storage.{
  create_file, read_file, Fs, Layout, config_file_msize, wlan_save_config, wlan_load_config,
}

-- A status of the file system: a count, or a small negative code.
abbrev pub IsStatus : ℕ → ℤ → Type 0
IsStatus n status = (status ≡ pos n) ⊎ ((k : ℕ) × (k < 128) × (status ≡ negsuc k))

-- The file's contents, and the handles that are open, with the bytes that were written to a new
-- file or that stand in an old one.
pub record FileLaws {F : Type 0} (fs : Fs F) : Type 1 where
  pub contents : F → Option (List ℕ)
  pub Writes : ℕ → List ℕ → F → Type 0
  pub Reads : ℕ → List ℕ → F → Type 0
  pub create_status : (size : ℕ) (f : F) → IsStatus 0 (fs.fs_open (create_file size) f).0
  pub create_handle :
      (size : ℕ) (f : F)
      → (fs.fs_open (create_file size) f).0 ≡ pos 0
      → (h : ℕ) × ((fs.fs_open (create_file size) f).1 ≡ some h)
        × Writes h [] (fs.fs_open (create_file size) f).2
  pub write_status :
      (h : ℕ) (bytes : List ℕ) (f : F)
      → Writes h [] f
      → IsStatus (length bytes) (fs.fs_write h bytes f).0
  pub write_bytes :
      (h : ℕ) (bytes : List ℕ) (f : F)
      → Writes h [] f
      → (fs.fs_write h bytes f).0 ≡ pos (length bytes)
      → Writes h bytes (fs.fs_write h bytes f).1
  pub close_written :
      (h : ℕ) (bytes : List ℕ) (f : F) → Writes h bytes f → contents (fs.fs_close h f) ≡ some bytes
  pub open_handle :
      (bytes : List ℕ) (f : F)
      → contents f ≡ some bytes
      → (h : ℕ) × (f' : F) × (fs.fs_open read_file f ≡ (pos 0, some h, f')) × Reads h bytes f'
  pub read_bytes :
      (h : ℕ) (bytes : List ℕ) (f : F)
      → Reads h bytes f
      → (f' : F) × (fs.fs_read h (length bytes) f ≡ (pos (length bytes), bytes, f'))

-- The arrays of a configuration have their sizes.
pub record IsConfig (c : WlanConfig) : Type 0 where
  pub ssid : length c.ssid ≡ max_ssid_length
  pub pwd : length c.pwd ≡ max_pwd_length

-- All configurations have one size, which an _i8 can hold, and their bytes determine them.
pub record LayoutLaws (layout : Layout) : Type 0 where
  pub size : ℕ
  pub small : size < 128
  pub sized : (c : WlanConfig) → IsConfig c → length (layout.to_bytes c) ≡ size
  pub decodes : (c : WlanConfig) → IsConfig c → layout.of_bytes (layout.to_bytes c) ≡ c

i8_small : (n : ℕ) → n < 128 → i8 (pos n) ≡ pos n
i8_small n h = ground arith

i8_negative : (k : ℕ) → k < 128 → i8 (negsuc k) ≡ negsuc k
i8_negative k h = ground arith

module _ {F : Type 0} (fs : Fs F) (layout : Layout) (laws : FileLaws fs)
    (sizes : LayoutLaws layout) where
  wlan_load_config-contents :
      (config old : WlanConfig) (f : F)
      → IsConfig config
      → IsConfig old
      → laws.contents f ≡ some (layout.to_bytes config)
      → (f' : F) × (wlan_load_config fs layout old f ≡ some (pos 0, config, f'))
  unfolding wlan_load_config
  wlan_load_config-contents config old f v u e =
      let bytes = layout.to_bytes config in
      let (h, f1, opened, reads) = laws.open_handle bytes f e in
      let (f2, read) = laws.read_bytes h bytes f1 reads in
      let old_bytes = layout.to_bytes old in
      let same : length old_bytes ≡ length bytes = sizes.sized old u ∙ sym (sizes.sized config v) in
      let read' : fs.fs_read h (length old_bytes) f1 ≡ (pos (length bytes), bytes, f2) =
        rw same read in
      let fits = i8_small (length bytes) (rw (sizes.sized config v) sizes.small) in
      (
        fs.fs_close h f2,
        rw (opened, read', copy?-whole old_bytes bytes (sym same), fits, sizes.decodes config v)
            refl,
      )

  -- Let the file system keep what is written and report errors by small negative codes, and let
  -- all configurations, whose arrays have 32 and 64 bytes, take up one number of bytes, less than
  -- 128, that determine them. Where the file can be created, saving a configuration returns, with
  -- a status that is an error or 0, and after 0 loading returns 0 and that configuration, whatever
  -- configuration the variable held before.
  pub wlan_load_config-saved :
      (config : WlanConfig) (f : F)
      → IsConfig config
      → (fs.fs_open (create_file config_file_msize) f).0 ≡ pos 0
      → (status : ℤ) × (f' : F) × (wlan_save_config fs layout config f ≡ some (status, f'))
        × ((negative status ≡ true)
            ⊎ ((status ≡ pos 0)
                × ((old : WlanConfig)
                    → IsConfig old
                    → (f'' : F) × (wlan_load_config fs layout old f' ≡ some (pos 0, config, f'')))))
  unfolding wlan_save_config
  wlan_load_config-saved config f v e =
      let (h, stored, writes) = laws.create_handle config_file_msize f e in
      let f1 = (fs.fs_open (create_file config_file_msize) f).2 in
      let bytes = layout.to_bytes config in
      let f2 = (fs.fs_write h bytes f1).1 in
      let fits = i8_small (length bytes) (rw (sizes.sized config v) sizes.small) in
      elim (laws.write_status h bytes f1 writes) [
        | inl all ↦ (
          pos 0,
          fs.fs_close h f2,
          rw (e, stored, all, fits) refl,
          inr (
            refl,
            λ old u.
                wlan_load_config-contents config old (fs.fs_close h f2) v u
                  (laws.close_written h bytes f2 (laws.write_bytes h bytes f1 writes all)),
          ),
        )
        | inr (k, lt, failed) ↦
            (negsuc k, fs.fs_close h f2, rw (e, stored, failed, i8_negative k lt) refl, inl refl)
      ]
