-- ===== src/Capture/NetFlow/Export/Enterprise.antt =====
-- Fields of IPFIX templates that are an enterprise's own.
use mathlib.Core.List.{append_assoc}
use sentinel_pi.Prelude.{
  ℕ, suc, ◌+◌, ◌-◌, ◌<◌, ◌≡◌, true, false, ◌++◌, length, drop, drop-front, leb, arith,
}
use sentinel_pi.Capture.Bytes.{Bytes, limit}
use sentinel_pi.Capture.NetFlow.{template_fields}
use sentinel_pi.Capture.NetFlow.Export.{words}
use sentinel_pi.Capture.NetFlow.Export.Template.{
  length-words_append, word_0-words, word_1-words, drop-words,
}

-- A field of an enterprise, its number stated after it, is read as the standard field of the same
-- number: nothing in the template tells them apart.
pub template_fields-enterprise :
    (n ftype flen : ℕ) (enterprise rest : Bytes)
    → ftype < 32768
    → flen < limit 2
    → length enterprise ≡ 4
    → template_fields true (suc n) (words (32768 + ftype) flen ++ (enterprise ++ rest))
      ≡ template_fields true (suc n) (words ftype flen ++ rest)
unfolding template_fields
template_fields-enterprise n ftype flen enterprise rest ht hl size =
    let hi : 32768 + ftype < limit 2 = unfold limit in omega arith in
    let lo : ftype < limit 2 = unfold limit in omega arith in
    let head = words (32768 + ftype) flen in
    let eight : drop 8 (head ++ (enterprise ++ rest)) ≡ rest =
      rw (← append_assoc head enterprise rest) (
        drop-front 8 (head ++ enterprise) rest
          (omega (arith, length-words_append (32768 + ftype) flen enterprise hi hl, size))) in
    let high : leb 32768 (32768 + ftype) ≡ true = ground arith in
    let low : leb 32768 ftype ≡ false = ground arith in
    let strip : 32768 + ftype - 32768 ≡ ftype = omega arith in
    rw
      (
        word_0-words (32768 + ftype) flen (enterprise ++ rest) hi hl,
        word_1-words (32768 + ftype) flen (enterprise ++ rest) hi hl,
        word_0-words ftype flen rest lo hl,
        word_1-words ftype flen rest lo hl,
        high,
        low,
        strip,
        eight,
        drop-words ftype flen rest lo hl,
      )
      (ground (
        arith,
        length-words_append (32768 + ftype) flen (enterprise ++ rest) hi hl,
        length-words_append ftype flen rest lo hl,
      ))
