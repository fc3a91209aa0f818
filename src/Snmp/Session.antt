-- ===== src/Snmp/Session.antt =====
-- internal/monitor/snmp.go: `setupSNMPParams`, the settings of a session from the texts of the
-- configuration.
use redborder_monitor.Base.{ℕ, ◌/◌, ◌+◌, ◌||◌, Option, none, some, [], ltb, if◌then◌else◌}
use redborder_monitor.Base.Text.{Bytes, codes, same, to_lower}
use redborder_monitor.Base.Int.{ℤ, positive_or, ms_duration}
use redborder_monitor.Base.Split.{replace_all}
use redborder_monitor.Model.{Sensor}

-- A context: the nanoseconds that its deadline gives a cycle; none without a deadline.
abbrev pub Context : Type 0
Context = Option ℤ

-- the arguments that the queries share: context, address and credentials
pub record Login : Type 0 where
  pub context : Context
  pub ip : Bytes
  pub community : Bytes
  pub version : Bytes
  pub timeout : ℤ
  pub username : Bytes
  pub security_level : Bytes
  pub auth_protocol : Bytes
  pub auth_password : Bytes
  pub priv_protocol : Bytes
  pub priv_password : Bytes

pub data SnmpVersion : Type 0 where
  version1 : SnmpVersion
  version2c : SnmpVersion
  version3 : SnmpVersion

pub data SecurityLevel : Type 0 where
  no_auth_no_priv : SecurityLevel
  auth_no_priv : SecurityLevel
  auth_priv : SecurityLevel

pub data AuthProtocol : Type 0 where
  no_auth : AuthProtocol
  md5 : AuthProtocol
  sha : AuthProtocol
  sha224 : AuthProtocol
  sha256 : AuthProtocol
  sha384 : AuthProtocol
  sha512 : AuthProtocol

pub data PrivProtocol : Type 0 where
  no_priv : PrivProtocol
  des : PrivProtocol
  aes : PrivProtocol
  aes192 : PrivProtocol
  aes256 : PrivProtocol
  aes192c : PrivProtocol
  aes256c : PrivProtocol

-- `UsmSecurityParameters` with the message flags
pub record Security : Type 0 where
  pub level : SecurityLevel
  pub user_name : Bytes
  pub auth : AuthProtocol
  pub auth_passphrase : Bytes
  pub priv : PrivProtocol
  pub priv_passphrase : Bytes

-- `GoSNMP`; the time-out is that of one attempt, in nanoseconds
pub record SnmpParams : Type 0 where
  pub target : Bytes
  pub port : ℕ
  pub community : Bytes
  pub version : SnmpVersion
  pub timeout : ℤ
  pub retries : ℕ
  pub context : Context
  pub security : Option Security

unfoldable pub version_of : Bytes → SnmpVersion
version_of text =
    let v = to_lower text in
    if same v (codes "1") then version1 else if same v (codes "3") then version3 else version2c

unfoldable pub level_of : Bytes → SecurityLevel
level_of text =
    let v = to_lower text in
    if same v (codes "authpriv")
    then auth_priv
    else if same v (codes "authnopriv")
    then auth_no_priv
    else no_auth_no_priv

-- in lower case, without hyphens, underscores and blanks
abbrev pub plain_name : Bytes → Bytes
plain_name text =
    replace_all (codes " ") []
      (replace_all (codes "_") [] (replace_all (codes "-") [] (to_lower text)))

unfoldable pub auth_protocol_of : Bytes → AuthProtocol
auth_protocol_of text =
    let v = plain_name text in
    if same v (codes "md5")
    then md5
    else if same v (codes "sha") || same v (codes "sha1")
    then sha
    else if same v (codes "sha224")
    then sha224
    else if same v (codes "sha256")
    then sha256
    else if same v (codes "sha384")
    then sha384
    else if same v (codes "sha512")
    then sha512
    else no_auth

unfoldable pub priv_protocol_of : Bytes → PrivProtocol
priv_protocol_of text =
    let v = plain_name text in
    if same v (codes "des")
    then des
    else if same v (codes "aes") || same v (codes "aes128")
    then aes
    else if same v (codes "aes192")
    then aes192
    else if same v (codes "aes256")
    then aes256
    else if same v (codes "aes192c")
    then aes192c
    else if same v (codes "aes256c")
    then aes256c
    else no_priv

-- the time-out of one of `retries + 1` attempts, in milliseconds
unfoldable pub attempt_timeout : ℕ → ℕ → ℕ
attempt_timeout timeout retries =
    let share = timeout / (retries + 1) in if ltb share 100 then timeout else share

unfoldable pub security_of : Login → SnmpVersion → Option Security
security_of l version3 = some (record {
  level = level_of l.security_level;
  user_name = l.username;
  auth = auth_protocol_of l.auth_protocol;
  auth_passphrase = l.auth_password;
  priv = priv_protocol_of l.priv_protocol;
  priv_passphrase = l.priv_password;
})
security_of l _ = none

unfoldable pub setup_snmp_params : Login → SnmpParams
setup_snmp_params l = record {
  target = l.ip;
  port = 161;
  community = l.community;
  version = version_of l.version;
  timeout = ms_duration (attempt_timeout (positive_or 5000 l.timeout) 2);
  retries = 2;
  context = l.context;
  security = security_of l (version_of l.version);
}

-- `sensorCtx`, the context of a sensor's cycle, whose parent has no deadline
unfoldable pub sensor_context : {F : Type 0} → Sensor F → Context
sensor_context s = some (ms_duration (positive_or 5000 s.timeout))

-- the arguments of a query for a sensor
unfoldable pub login_of : {F : Type 0} → Sensor F → Login
login_of s = record {
  context = sensor_context s;
  ip = s.sensor_ip;
  community = s.community;
  version = s.snmp_version;
  timeout = s.timeout;
  username = s.snmp_username;
  security_level = s.snmp_security_level;
  auth_protocol = s.snmp_auth_protocol;
  auth_password = s.snmp_auth_password;
  priv_protocol = s.snmp_priv_protocol;
  priv_password = s.snmp_priv_password;
}
