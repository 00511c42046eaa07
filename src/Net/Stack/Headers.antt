-- ===== src/Net/Stack/Headers.antt =====
-- The headers that net/net.c builds: their checksums verify.
use pumpkin_os.Prelude.{ℕ, zero, suc, ◌≤◌, ◌<◌, ◌≡◌, refl, arith, List, [], ◌∷◌, ◌++◌}
use pumpkin_os.Prelude.{drop, length, length-drop}
use pumpkin_os.Net.Wire.{ip_checksum, ip_to_bytes}
use pumpkin_os.Net.Wire.Checksum.{AllBytes, ip_checksum-verifies}
use pumpkin_os.Net.Stack.{ip_front, ip_back, ip_header, echo_reply}

-- The header of every datagram, built for a protocol number of one byte, has the checksum 0.
pub ip_header-verifies :
    (iplen id proto src dst : ℕ) → proto < 256 → ip_checksum (ip_header iplen id proto src dst) ≡ 0
unfolding ip_header ip_to_bytes
ip_header-verifies iplen id proto src dst h =
    ip_checksum-verifies (ip_front iplen id proto) (ip_back src dst) tt bytes (omega arith)
  where
    bytes : AllBytes (ip_front iplen id proto ++ 0 ∷ 0 ∷ ip_back src dst)
    bytes = (
      omega arith,
      (
        omega arith,
        (
          omega arith,
          (
            omega arith,
            (
              omega arith,
              (
                omega arith,
                (
                  omega arith,
                  (
                    omega arith,
                    (
                      omega arith,
                      (
                        h,
                        (
                          omega arith,
                          (
                            omega arith,
                            (
                              omega arith,
                              (
                                omega arith,
                                (
                                  omega arith,
                                  (
                                    omega arith,
                                    (omega arith, (omega arith, (omega arith, (omega arith, tt)))),
                                  ),
                                ),
                              ),
                            ),
                          ),
                        ),
                      ),
                    ),
                  ),
                ),
              ),
            ),
          ),
        ),
      ),
    )

AllBytes-drop : (n : ℕ) (bs : List ℕ) → AllBytes bs → AllBytes (drop n bs)
AllBytes-drop zero bs h = h
AllBytes-drop (suc n) [] h = tt
AllBytes-drop (suc n) (b ∷ bs) (a, h) = AllBytes-drop n bs h

-- The reply to a ping of 4 to 1500 bytes has the checksum 0, the length of the request and, behind
-- the checksum, the bytes of the request.
pub echo_reply-verifies :
    (req : List ℕ)
    → AllBytes req
    → 4 ≤ length req
    → length req ≤ 1500
    → (ip_checksum (echo_reply req) ≡ 0)
      × (length (echo_reply req) ≡ length req)
      × (drop 4 (echo_reply req) ≡ drop 4 req)
unfolding echo_reply
echo_reply-verifies req h l u = (
  ip_checksum-verifies (0 ∷ 0 ∷ []) (drop 4 req) tt
      (omega arith, (omega arith, (omega arith, (omega arith, AllBytes-drop 4 req h))))
      (omega (arith, length-drop 4 req)),
  omega (arith, length-drop 4 req),
  refl,
)
