-- ===== src/Persist/Files/Write.antt =====
-- `writeFull` writes all, or says that it did not.
use gapdb.Prelude.{
  ℕ, zero, suc, ◌+◌, ◌≤◌, ◌<◌, ◌==◌, Bool, true, false, [], ◌∷◌, ◌++◌, Bytes, length, take, drop,
  ltb, ◌≡◌, refl, sym, ap, ◌∙◌, arith, Bool-cases, inl, inr, length-drop,
}
use mathlib.Core.List.{append_assoc, append-nil}
use gapdb.Persist.Files.{FileOps, IsFile, write_rounds, write_full}

take-drop :
    (m n : ℕ) (xs : Bytes) → m ≤ length xs → take m xs ++ take n (drop m xs) ≡ take (m + n) xs
take-drop zero n xs h = ap (λ k. take k xs) (omega arith)
take-drop (suc m) n [] h = absurd (omega arith)
take-drop (suc m) n (x ∷ xs) h =
    let shift : suc (m + n) ≡ suc m + n = omega arith in
    ap (◌∷◌ x) (take-drop m n xs (omega arith)) ∙ ap (λ k. take k (x ∷ xs)) shift

module _ {F : Type 0} (ops : FileOps F) (file : IsFile ops) where
  -- A call leaves a first part of the value behind what there was, and all of it if it succeeds.
  pub record WroteFull (f : F) (b : Bytes) (after : F × Bool) : Type 0 where
    pub count : ℕ
    pub within : count ≤ length b
    pub content : file.content after.0 ≡ file.content f ++ take count b
    pub keeps : file.stable f ≤ file.stable after.0
    pub whole : after.1 ≡ false → count ≡ length b

  partly : (f : F) (b : Bytes) → WroteFull f b ((ops.write f b).0, true)
  partly f b = record {
    count = (ops.write f b).1;
    within = file.write_takes f b;
    content = file.write_appends f b;
    keeps = file.write_keeps f b;
    whole = λ q. cc;
  }

  followed :
      (f : F) (b : Bytes) (after : F × Bool)
      → WroteFull (ops.write f b).0 (drop (ops.write f b).1 b) after
      → WroteFull f b after
  followed f b after w =
      let n = (ops.write f b).1 in
      let taken = file.write_takes f b in
      let left = length-drop n b taken in
      record {
        count = n + w.count;
        within = omega (arith, w.within);
        content =
            w.content
            ∙ ap (λ c. c ++ take w.count (drop n b)) (file.write_appends f b)
            ∙ append_assoc (file.content f) (take n b) (take w.count (drop n b))
            ∙ ap (◌++◌ (file.content f)) (take-drop n w.count b taken);
        keeps = omega (arith, w.keeps, file.write_keeps f b);
        whole = λ q. omega (arith, w.whole q);
      }

  write_rounds-WroteFull :
      (fuel : ℕ) (f : F) (b : Bytes) → length b ≤ fuel → WroteFull f b (write_rounds ops fuel f b)
  unfolding write_rounds
  write_rounds-WroteFull zero f [] h = record {
    count = 0;
    within = omega arith;
    content = sym (append-nil (file.content f));
    keeps = omega arith;
    whole = λ q. refl;
  }
  write_rounds-WroteFull zero f (x ∷ b) h = absurd (omega arith)
  write_rounds-WroteFull (suc fuel) f [] h = record {
    count = 0;
    within = omega arith;
    content = sym (append-nil (file.content f));
    keeps = omega arith;
    whole = λ q. refl;
  }
  write_rounds-WroteFull (suc fuel) f (x ∷ b) h =
      let c = x ∷ b in
      let n = (ops.write f c).1 in
      let seen : (length c == 0) ≡ false = ground arith in
      elim (Bool-cases (ltb (length c) n)) [
        | inl e ↦ rw (seen, e) (partly f c)
        | inr e ↦ elim (Bool-cases (ops.write f c).2) [
          | inl e' ↦ rw (seen, e, e') (partly f c)
          | inr e' ↦ elim (Bool-cases (n == 0)) [
            | inl e'' ↦ rw (seen, e, e', e'') (partly f c)
            | inr e'' ↦
                let some_byte : 0 < n = ground (arith, e'') in
                let left = length-drop n c (file.write_takes f c) in
                rw (seen, e, e', e'')
                  (followed f c (write_rounds ops fuel (ops.write f c).0 (drop n c))
                    (write_rounds-WroteFull fuel (ops.write f c).0 (drop n c) (omega arith)))
          ]
        ]
      ]

  pub write_full-WroteFull : (f : F) (b : Bytes) → WroteFull f b (write_full ops f b)
  unfolding write_full
  write_full-WroteFull f b = write_rounds-WroteFull (length b) f b (omega arith)
