-- ===== src/Probes/Answers.antt =====
-- app/tasks/probes.py: what the network answers to the probes.
use ghostmon.Base.{ℕ, Bool, String, Option, List, Exception}

-- Each request may also end in an exception that its probe does not catch.

-- `client.get`: a status code and the milliseconds, or one of the two errors
pub data HttpAnswer : Type 0 where
  response : ℕ → ℕ → HttpAnswer
  timeout : HttpAnswer
  uncaught : Exception → HttpAnswer
  http_error : String → HttpAnswer

-- `open_connection`
pub data TcpAnswer : Type 0 where
  connected : ℕ → TcpAnswer
  timeout : TcpAnswer
  uncaught : Exception → TcpAnswer
  os_error : String → TcpAnswer

-- the certificate of the peer: its `notAfter`, if it has one
pub record Certificate : Type 0 where
  pub not_after : Option String

-- `open_connection` with TLS
pub data TlsAnswer : Type 0 where
  connected : ℕ → Option Certificate → TlsAnswer
  timeout : TlsAnswer
  uncaught : Exception → TlsAnswer
  tls_error os_error : String → TlsAnswer

-- the return code of a process: negative for a signal
pub data ReturnCode : Type 0 where
  success : ReturnCode
  exited signalled : ℕ → ReturnCode

-- the process `ping`: its code, its output and its errors, decoded
pub data PingAnswer : Type 0 where
  finished : ReturnCode → String → String → PingAnswer
  no_binary timeout : PingAnswer
  uncaught : Exception → PingAnswer

-- what `get_cmd` gives: the indication and the status are none where they are false
pub record SnmpReply : Type 0 where
  pub error_indication : Option String
  pub error_status : Option String
  pub error_index : ℕ
  pub var_binds : List String

-- OSError and TimeoutError are caught
pub data SnmpAnswer : Type 0 where
  reply : SnmpReply → SnmpAnswer
  failed : String → SnmpAnswer
  uncaught : Exception → SnmpAnswer

pub record Network : Type 0 where
  pub http_get : Bool → String → HttpAnswer
  pub open_connection : String → ℕ → TcpAnswer
  pub open_tls : String → ℕ → TlsAnswer
  pub ping : String → PingAnswer
  pub snmp_latency : ℕ
  pub snmp_get : String → ℕ → String → String → SnmpAnswer
