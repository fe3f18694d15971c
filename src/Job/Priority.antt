-- ===== src/Job/Priority.antt =====
-- store_schema.py, `job_priority`: the order of the sort keys.
use parliament.Base.{ℕ, ◌≡◌, true, false, arith}
use parliament.Job.{key_lt}

pub key_lt_asymm : (a b : ℕ × ℕ × ℕ) → key_lt a b ≡ true → key_lt b a ≡ false
unfolding key_lt
key_lt_asymm (a, b, c) (x, y, z) h = ground arith

pub key_le_trans :
    (a b c : ℕ × ℕ × ℕ) → key_lt b a ≡ false → key_lt c b ≡ false → key_lt c a ≡ false
unfolding key_lt
key_le_trans (a, b, c) (x, y, z) (p, q, r) h k = ground arith
