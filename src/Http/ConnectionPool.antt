-- ===== src/Http/ConnectionPool.antt =====
-- src/http/HttpConnectionPool.cpp and include/http/HttpConnectionPool.h: connections that are used again,
-- and the owner that gives one back. The descriptor, the address and the router of a connection are not
-- state of this model; a null pointer is `none`. Each operation is one step under the mutex.
pub mod Clean
pub mod Owners
pub mod Tests
use linux_cpp_web_server.Common.{
  ℕ, ◌+◌, ◌-◌, ◌%◌, ◌^◌, Bool, true, false, Option, none, some, List, [], ◌∷◌, if◌then◌else◌, ltb,
  length,
}
use linux_cpp_web_server.Http.Connection.{HttpConnection, reset_for_keep_alive, reinitialize}
use linux_cpp_web_server.Http.Connection

pub record HttpConnectionPool : Type 0 where
  pub free_connections : List HttpConnection
  pub total_created : ℕ
  pub in_use : ℕ

abbrev pub max_pool_size : ℕ
max_pool_size = 10000

unfoldable pub empty_pool : HttpConnectionPool
empty_pool = record { free_connections = []; total_created = 0; in_use = 0 }

unfoldable pub acquire : HttpConnectionPool → HttpConnection × HttpConnectionPool
acquire p = elim p.free_connections [
  | [] ↦ (
    Connection.init,
    record p { total_created = (p.total_created + 1) % 2 ^ 64; in_use = (p.in_use + 1) % 2 ^ 64 },
  )
  | conn ∷ rest ↦
      (reinitialize conn, record p { free_connections = rest; in_use = (p.in_use + 1) % 2 ^ 64 })
]

unfoldable pub put_back : HttpConnection → HttpConnectionPool → HttpConnectionPool
put_back conn p =
    if ltb (length p.free_connections) max_pool_size
    then record p { free_connections = conn ∷ p.free_connections }
    else p

unfoldable pub release : Option HttpConnection → HttpConnectionPool → HttpConnectionPool
release none p = p
release (some conn) p = record (put_back (reset_for_keep_alive conn) p) {
  in_use = (p.in_use + (2 ^ 64 - 1)) % 2 ^ 64;
}

unfoldable pub clear : HttpConnectionPool → HttpConnectionPool
clear p = record p { free_connections = [] }

-- `ManagedConnection`: the pointer that it owns.
abbrev pub ManagedConnection : Type 0
ManagedConnection = Option HttpConnection

unfoldable pub managed : HttpConnectionPool → ManagedConnection × HttpConnectionPool
managed p = (some (acquire p).0, (acquire p).1)

-- The destructor, and `release`, which leaves a null pointer.
unfoldable pub release_managed :
    ManagedConnection → HttpConnectionPool → ManagedConnection × HttpConnectionPool
release_managed none p = (none, p)
release_managed (some conn) p = (none, release (some conn) p)

-- The assignment from another object: the new pointer, what the other keeps, and the pool.
unfoldable pub move_assign :
    ManagedConnection
    → ManagedConnection
    → HttpConnectionPool
    → ManagedConnection × ManagedConnection × HttpConnectionPool
move_assign self other p = (other, none, (release_managed self p).1)
