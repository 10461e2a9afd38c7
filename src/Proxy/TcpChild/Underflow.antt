-- ===== src/Proxy/TcpChild/Underflow.antt =====
-- The first read of an ETF connection, which is not limited to the header.
use proxy_channels.Base.{
  ℕ, ◌+◌, ◌-◌, ◌%◌, ◌^◌, ◌<◌, ◌≡◌, refl, [], ◌∷◌, false, arith, Bytes, ok, ◌==◌,
}
use proxy_channels.Proxy.TcpChild.{read_handler, read_exact}
use proxy_channels.Proxy.TcpChild.Readers.{Reader, size_add, size_sub, etf_log_mark}
use proxy_channels.Proxy.TcpChild.Readers.EtfLog.{on_read}

-- If the first read of a connection brings more than the 12 bytes of a header, and they begin with
-- the mark, then it asks for 2^64 bytes less the surplus, behind the bytes that it has.
pub on_read-surplus :
    (n : ℕ) (rest : Bytes) (s : Reader)
    → 12 < n
    → n < 2 ^ 64
    → let buffer = etf_log_mark ∷ rest in
      on_read false n (record s { in_buffer = buffer; header_read_bytes = 0 })
      ≡ ok (
        record s { in_buffer = buffer; header_read_bytes = n },
        read_exact read_handler n (2 ^ 64 - (n - 12)) ∷ [],
      )
unfolding on_read size_add size_sub
on_read-surplus n rest s more small = rw (got, not_all, left) refl
  where
    got : (0 + n) % 2 ^ 64 ≡ n
    got = omega arith

    not_all : (n == 12) ≡ false
    not_all = ground arith

    left : (12 + 2 ^ 64 - n) % 2 ^ 64 ≡ 2 ^ 64 - (n - 12)
    left = omega arith
