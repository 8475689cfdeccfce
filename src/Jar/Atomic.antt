-- ===== src/Jar/Atomic.antt =====
-- The file of the cookie jar after a save, and what the next client loads from it.
use brainapi_go_sdk.Prelude.{
  ◌≡◌, ◌⊎◌, inl, inr, refl, Option, none, some, Text, text_eq, text_eq_refl, text_eq_iff, ℤ,
  Bool-cases, ap, ◌∙◌, sym,
}
use brainapi_go_sdk.Errors.{Error}
use brainapi_go_sdk.Jar.{
  CookieLib, CookieSnapshot, Files, Disk, write_file, remove_file, rename_file, write_temp,
  save_bytes, save_marshalled, save_jar, snapshot,
}

-- The file at `path` is whole and new after a save that succeeds; nothing else changes.
abbrev pub Saves :
    {S : Type 0}
    → CookieLib S
    → Text
    → Text
    → CookieSnapshot
    → Files
    → Option Error × Files
    → Type 0
Saves lib path p snap fs (none, fs') = (fs' path ≡ lib.marshal snap) × ((p ≡ path) ⊎ (fs' p ≡ fs p))
Saves lib path p snap fs (some e, fs') = fs' p ≡ fs p

module _ (temp : Text) (fs : Files) (fresh : fs temp ≡ none) where
  removed : (b p : Text) → remove_file temp (write_file temp b fs) p ≡ fs p
  unfolding remove_file write_file
  removed b p = elim (Bool-cases (text_eq p temp)) [
    | inl e ↦ rw e (sym (ap fs ((text_eq_iff p temp).0 e) ∙ fresh))
    | inr n ↦ rw n refl
  ]

  renamed_at : (path b : Text) → rename_file temp path (write_file temp b fs) path ≡ some b
  unfolding rename_file write_file
  renamed_at path b = rw (text_eq_refl path) (rw (text_eq_refl temp) refl)

  renamed_off :
      (path b p : Text) → (p ≡ path) ⊎ (rename_file temp path (write_file temp b fs) p ≡ fs p)
  unfolding rename_file write_file
  renamed_off path b p = elim (Bool-cases (text_eq p path)) [
    | inl e ↦ inl ((text_eq_iff p path).0 e)
    | inr n ↦ elim (Bool-cases (text_eq p temp)) [
      | inl e ↦ inr (rw n (rw e (sym (ap fs ((text_eq_iff p temp).0 e) ∙ fresh))))
      | inr m ↦ inr (rw n (rw m refl))
    ]
  ]

module _ {S : Type 0} (lib : CookieLib S) (path p : Text) (snap : CookieSnapshot) (fs : Files) where
  abbrev SavesHere : Option Error × Files → Type 0
  SavesHere = Saves lib path p snap fs

  temp-Saves :
      (d : Disk) (b : Text)
      → fs d.temp ≡ none
      → lib.marshal snap ≡ some b
      → SavesHere (write_temp d path b fs)
  unfolding write_temp
  temp-Saves d b f e = by_errors d.write_error d.close_error d.rename_error
    where
      by_errors :
          (w c r : Option Error)
          → SavesHere (elim w [
            | some x ↦ (some x, remove_file d.temp (write_file d.temp d.partial fs))
            | none ↦ elim c [
              | some x ↦ (some x, remove_file d.temp (write_file d.temp b fs))
              | none ↦ elim r [
                | some x ↦ (some x, remove_file d.temp (write_file d.temp b fs))
                | none ↦ (none, rename_file d.temp path (write_file d.temp b fs))
              ]
            ]
          ])
      by_errors (some x) c r = removed d.temp fs f d.partial p
      by_errors none (some x) r = removed d.temp fs f b p
      by_errors none none (some x) = removed d.temp fs f b p
      by_errors none none none =
          (renamed_at d.temp fs f path b ∙ sym e, renamed_off d.temp fs f path b p)

  bytes-Saves :
      (d : Disk) (b : Text)
      → fs d.temp ≡ none
      → lib.marshal snap ≡ some b
      → SavesHere (save_bytes d path b fs)
  unfolding save_bytes
  bytes-Saves d b f e = by_errors d.mkdir_error d.create_error
    where
      by_errors :
          (m c : Option Error)
          → SavesHere (elim m [
            | some x ↦ (some x, fs)
            | none ↦ elim c [ some x ↦ (some x, fs) | none ↦ write_temp d path b fs ]
          ])
      by_errors (some x) c = refl
      by_errors none (some x) = refl
      by_errors none none = temp-Saves d b f e

  marshalled-Saves :
      (d : Disk) (o : Option Text)
      → fs d.temp ≡ none
      → lib.marshal snap ≡ o
      → SavesHere (save_marshalled d path o fs)
  marshalled-Saves d none f e = refl
  marshalled-Saves d (some b) f e = bytes-Saves d b f e

-- Whichever call of saveJar fails, a save that returns an error has changed no file, and one that
-- returns none has left the whole new snapshot at the path of the jar and every other file as it
-- was, where the name of the temporary file is new and os.Remove succeeds.
pub save_jar-Saves :
    {S : Type 0} (lib : CookieLib S) (d : Disk) (path url p : Text) (now : ℤ) (jar : S) (fs : Files)
    → fs d.temp ≡ none
    → Saves lib path p (snapshot lib url now jar) fs (save_jar lib d path url now (some jar) fs)
unfolding save_jar
save_jar-Saves lib d path url p now jar fs f =
    marshalled-Saves lib path p (snapshot lib url now jar) fs d
      (lib.marshal (snapshot lib url now jar)) f refl
