-- ===== src/Extract/Tarball/RoundTrip/Header.antt =====
-- The header of a tar member of the format, as src/extract/tarball.rs reads it.
use ziftsieve.Base.{
  ℕ, zero, suc, ◌+◌, ◌-◌, ◌*◌, ◌/◌, ◌%◌, ◌^◌, ◌≤◌, ◌<◌, ◌≡◌, refl, ◌∙◌, ap, arith, List, [], ◌∷◌,
  ◌++◌, length, drop, replicate, All, Bool, true, false, ◌||◌, ◌==◌, usize_max, ok, ◌>>=◌, ◌>>◌,
  refuse, index, slice, le→leb, ge→ltb, lt→ltb, ne→==, length-append, length-replicate,
  append_assoc, slice-append, index-append, slice-rest, take_all, rest_bound, Bool-cases, inl, inr,
}
use native.Mathlib.Nat.{pow-suc}
use ziftsieve.Extract.Tarball.{
  octal_round, octal_from, parse_tar_octal_usize, is_end_of_archive_block, before_nul,
  read_tar_member, next_member_offset,
}
use ziftsieve.Extract.Tarball.Name.{
  from_utf8_lossy, lossy_from, next_byte, first_byte, fresh, contains_path_traversal,
}
use ziftsieve.Extract.Tarball.Name.Components.{HasParent, contains_path_traversal_iff}
use ziftsieve.Extract.Tarball.Format.{
  Entry, IsEntry, name_field, octal_digits, size_field, encode_header, padding, encode_entry,
}

-- Whether a digit has been found behind `k` of them.
abbrev seen : ℕ → Bool
seen zero = false
seen (suc k) = true

octal_digit :
    (offset value n : ℕ) (found : Bool) (rest : List ℕ)
    → value * 8 + n % 8 ≤ usize_max
    → octal_from offset ((b'0' + n % 8) ∷ rest) (record { value = value; found = found })
      ≡ octal_from offset rest (record { value = value * 8 + n % 8; found = true })
unfolding octal_from octal_round ◌>>=◌ ◌>>◌ refuse
octal_digit offset value n found rest h =
    let digit : b'0' + n % 8 - b'0' ≡ n % 8 = omega arith in
    rw (
      ne→== (b'0' + n % 8) 0 (λ e. omega (arith, e)),
      ne→== (b'0' + n % 8) b' ' (λ e. omega (arith, e)),
      le→leb b'0' (b'0' + n % 8) (omega arith),
      le→leb (b'0' + n % 8) b'7' (omega arith),
      digit,
      ge→ltb usize_max (value * 8 + n % 8) h,
    )

octal_from-digits :
    (offset k n : ℕ) (rest : List ℕ)
    → n < 8 ^ k
    → n ≤ usize_max
    → octal_from offset (octal_digits k n ++ rest) (record { value = 0; found = false })
      ≡ octal_from offset rest (record { value = n; found = seen k })
unfolding octal_digits
octal_from-digits offset zero n rest h fits = let e : n ≡ 0 = omega arith in rw e
octal_from-digits offset (suc k) n rest h fits =
    let same : n / 8 * 8 + n % 8 ≡ n = omega arith in
    let shorter : n / 8 < 8 ^ k = omega (arith, pow-suc 8 k) in
    rw append_assoc (
      octal_from-digits offset k (n / 8) ((b'0' + n % 8) ∷ rest) shorter (omega arith)
      ∙ octal_digit offset (n / 8) n (seen k) rest (omega arith)
      ∙ rw same)

length-octal_digits : (k n : ℕ) → length (octal_digits k n) ≡ k
unfolding octal_digits
length-octal_digits zero n = refl
length-octal_digits (suc k) n = omega (
  arith,
  length-octal_digits k (n / 8),
  length-append (octal_digits k (n / 8)) ((b'0' + n % 8) ∷ []),
)

parse-size_field :
    (e : Entry) (offset : ℕ)
    → length e.content < 2 ^ 32
    → parse_tar_octal_usize (size_field e) offset ≡ ok (length e.content)
unfolding parse_tar_octal_usize
parse-size_field e offset small =
    octal_from-digits offset 11 (length e.content) (0 ∷ []) (omega arith) (omega arith) ∙ ends
  where
    ends :
        octal_from offset (0 ∷ []) (record { value = length e.content; found = true })
        ≡ ok (length e.content)
    ends = unfold octal_from octal_round ◌>>=◌ in refl

before_nul-name :
    (xs : List ℕ) (k : ℕ)
    → All (λ c. (0 < c) × (c < 0x80)) xs
    → before_nul (xs ++ replicate k 0) ≡ xs
unfolding before_nul
before_nul-name [] zero h = refl
before_nul-name [] (suc k) h = refl
before_nul-name (x ∷ xs) k h =
    rw (ne→== x 0 (λ e. omega (arith, h.0.0, e)), before_nul-name xs k h.1)

-- ASCII stays.
lossy-ascii : (xs : List ℕ) → All (λ c. (0 < c) × (c < 0x80)) xs → lossy_from fresh xs ≡ xs
unfolding lossy_from next_byte first_byte
lossy-ascii [] h = refl
lossy-ascii (x ∷ xs) h = rw (lt→ltb x 0x80 (h.0.1), lossy-ascii xs h.1)

no_traversal : (name : List ℕ) → (HasParent name → ⊥) → contains_path_traversal name ≡ false
no_traversal name h = elim (Bool-cases (contains_path_traversal name)) [
  | inl e ↦ absurd (h ((contains_path_traversal_iff name).0 e))
  | inr e ↦ e
]

module _ (e : Entry) (v : IsEntry e) where
  name_size : length (name_field e) ≡ 100
  name_size = omega (
    arith,
    v.short,
    length-append (e.first ∷ e.name) (replicate (100 - suc (length e.name)) 0),
    length-replicate {A = ℕ} (100 - suc (length e.name)) 0,
  )

  size_size : length (size_field e) ≡ 12
  size_size = omega (
    arith,
    length-append (octal_digits 11 (length e.content)) (0 ∷ []),
    length-octal_digits 11 (length e.content),
  )

  pub length-encode_header : length (encode_header e) ≡ 512
  unfolding encode_header
  length-encode_header = omega (
    arith,
    name_size,
    size_size,
    v.mode_there,
    v.checksum_there,
    v.link_there,
    length-append (name_field e)
        (e.mode ++ (size_field e ++ (e.checksum ++ (e.typeflag ∷ e.link)))),
    length-append e.mode (size_field e ++ (e.checksum ++ (e.typeflag ∷ e.link))),
    length-append (size_field e) (e.checksum ++ (e.typeflag ∷ e.link)),
    length-append e.checksum (e.typeflag ∷ e.link),
  )

  name_found : slice (encode_header e) 0 100 ≡ ok (name_field e)
  unfolding encode_header
  name_found =
      slice-append [] (name_field e)
        (e.mode ++ (size_field e ++ (e.checksum ++ (e.typeflag ∷ e.link)))) 0 100 refl
        (omega (arith, name_size))

  size_found : slice (encode_header e) 124 136 ≡ ok (size_field e)
  unfolding encode_header
  size_found =
      let sum = length-append (name_field e) e.mode in
      rw
        (← append_assoc (name_field e) e.mode
          (size_field e ++ (e.checksum ++ (e.typeflag ∷ e.link))))
        (slice-append (name_field e ++ e.mode) (size_field e) (e.checksum ++ (e.typeflag ∷ e.link))
          124 136 (omega (arith, sum, name_size, v.mode_there))
          (omega (arith, sum, name_size, v.mode_there, size_size)))

  flag_found : index (encode_header e) 156 ≡ ok e.typeflag
  unfolding encode_header
  flag_found =
      let front = name_field e ++ (e.mode ++ (size_field e ++ e.checksum)) in
      let same : name_field e ++ (e.mode ++ (size_field e ++ (e.checksum ++ (e.typeflag ∷ e.link))))
          ≡ front ++ (e.typeflag ∷ e.link) =
        rw (append_assoc (name_field e), append_assoc e.mode, append_assoc (size_field e)) in
      rw same (
        index-append front e.link e.typeflag 156 (
          omega (
            arith,
            name_size,
            size_size,
            v.mode_there,
            v.checksum_there,
            length-append (name_field e) (e.mode ++ (size_field e ++ e.checksum)),
            length-append e.mode (size_field e ++ e.checksum),
            length-append (size_field e) e.checksum,
          )))

  name_read : from_utf8_lossy (before_nul (name_field e)) ≡ e.first ∷ e.name
  unfolding from_utf8_lossy
  name_read =
      ap (lossy_from fresh) (before_nul-name (e.first ∷ e.name) _ v.ascii)
      ∙ lossy-ascii (e.first ∷ e.name) v.ascii

  pub not_end : is_end_of_archive_block (encode_header e) ≡ false
  unfolding is_end_of_archive_block encode_header
  not_end = rw (ne→== e.first 0 (λ same. omega (arith, v.ascii.0.0, same)))

  module _ (content rest : List ℕ) (pos : ℕ)
      (there : drop pos content ≡ encode_header e ++ rest) where
    pub header_found : slice content pos (pos + 512) ≡ ok (encode_header e)
    header_found =
        let size = length-encode_header in
        slice-rest content pos 512 (encode_header e) rest there (omega arith)
          (omega (arith, rest_bound content pos _ there, length-append (encode_header e) rest))
        ∙ ap ok (take_all 512 (encode_header e) (omega arith))

    -- A header that is read gives the member.
    pub read_tar_member-encode_header :
        length content ≤ usize_max
        → pos + 512 + length e.content ≤ length content
        → read_tar_member content pos pos
          ≡ ok (record {
            content_offset = pos + 512;
            content_size = length e.content;
            is_regular_file = e.typeflag == b'0' || e.typeflag == 0;
            is_symlink = e.typeflag == b'2';
            is_hardlink = e.typeflag == b'1';
            name = e.first ∷ e.name;
          })
    unfolding read_tar_member ◌>>=◌ ◌>>◌ refuse
    read_tar_member-encode_header fits inside = rw (
      ge→ltb usize_max (pos + 512) (omega (arith, fits, inside)),
      ge→ltb (length content) (pos + 512) (omega (arith, inside)),
      header_found,
      not_end,
      size_found,
      parse-size_field e (pos + 124) v.small,
      flag_found,
      name_found,
      name_read,
      no_traversal (e.first ∷ e.name) v.no_parent,
      ge→ltb usize_max (pos + 512 + length e.content) (omega (arith, fits, inside)),
      ge→ltb (length content) (pos + 512 + length e.content) inside,
    )

  pub length-encode_entry :
      length (encode_entry e) ≡ 512 + length e.content + padding (length e.content)
  unfolding encode_entry
  length-encode_entry = omega (
    arith,
    length-encode_header,
    length-append (encode_header e) (e.content ++ replicate (padding (length e.content)) 0),
    length-append e.content (replicate (padding (length e.content)) 0),
    length-replicate {A = ℕ} (padding (length e.content)) 0,
  )

  pub next_member_offset-encode_entry :
      (pos : ℕ)
      → pos + length (encode_entry e) ≤ usize_max
      → next_member_offset pos (length e.content) ≡ ok (pos + length (encode_entry e))
  unfolding next_member_offset ◌>>=◌ ◌>>◌ refuse
  next_member_offset-encode_entry pos fits =
      let n = length e.content in
      let whole = length-encode_entry in
      let same : pos + 512 + (n + (512 - 1)) / 2 ^ 9 * 2 ^ 9 ≡ pos + length (encode_entry e) =
        omega arith in
      rw (
        ge→ltb usize_max (pos + 512) (omega (arith, fits)),
        same,
        ge→ltb usize_max (pos + length (encode_entry e)) fits,
      )
