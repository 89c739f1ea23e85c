-- ===== src/Lib.antt =====
-- Sentrix: the detection pipeline of a passive network monitor.
--
-- A packet is parsed, counted in a table of flows, turned into features, scored by the detectors,
-- and a score that is an alarm becomes an alert, which is linked to recent alerts and sent to a
-- webhook.
--
--   Ingest.Pcap           ingest/pcap_reader.py: the producer thread and its consumer as steps on the
--                         shared queue. A round of the producer's loop is one step
--   Parsers.Packet        parsers/ip_tcp_udp.py: parse_packet, over dpkt as the parameter `Dpkt`
--   Parsers.Tls           parsers/tls_quic_handshake.py: parse_tls_handshake, over dpkt's TLS objects
--   Parsers.Dns           parsers/dns_parser.py: parse_dns
--   Assembler.Table       assembler/flow_session_tables.py: BoundedTable. An OrderedDict is an
--                         association list from the oldest entry to the newest (Dict)
--   Assembler             the same file: FlowAssembler. The packets it takes are those of
--                         Parsers.Packet; the object that get_or_create returns is shared with the
--                         table, so the increments are written back under its key
--   Features.Sketch       features/online_stats.py: CountMinSketch, over a digest as a parameter
--   Features.Online       the same file: Welford, EWMA and the entropy of a sketch
--   Features.Ddos, .Beaconing, .Dns, .Traffic
--                         the extractors: features/ddos_features.py, beaconing_features.py,
--                         dga_dns_features.py and dns_exfil_features.py, and in Traffic
--                         encrypted_meta_features.py, exfiltration_features.py, recon_scan_features.py
--   Features.Scheduler    features/scheduler.py: process_packet, which feeds them and fires the windows
--   Detectors             models/base_detector.py, and the types that the detectors share. A loaded
--                         model is a parameter, and the texts of the explanations are constructors
--   Detectors.Ddos        models/ddos_detector.py: predict and predict_batch
--   Detectors.Rules       predict of models/beaconing_detector.py, dga_classifier.py,
--                         exfiltration_detector.py, recon_scan_detector.py, dns_exfil_detector.py
--   Detectors.Encrypted   predict of models/encrypted_traffic_classifier.py
--   Detectors.Loading     the constructors of the detectors, and of models/dga_classifier.py
--                         _ensure_lstm_loaded and predict_domain_string
--   Alerting.Schema       alerting/schema.py
--   Alerting.Normalizer   alerting/normalizer.py: get_severity and normalize
--   Alerting.Webhook      alerting/webhook.py
--   Alerting.Dispatch     both of them, from a score to the request
--   Alerting.Store        alerting/store.py: the write buffer, its flush, the reads and, in
--                         Store.Upkeep, clear, close and the summary. SQLite's table is a list of
--                         alerts, and whether a statement raises is an argument
--   Alerting.ClickHouse   alerting/clickhouse_store.py: the pending alerts, the writer and the reads
--   Inference.Engine      inference/onnx_engine.py: the sessions and the predict functions
--   Inference.Models      inference/worker.py: the features of a model and predict_batch
--   Inference.Worker      the same file: the loop over the messages and _flush_batch, which calls
--                         Alerting.Normalizer, Alerting.Correlator and Alerting.ClickHouse
--   Alerting.Correlator   alerting/correlator.py: process, with the two eviction loops
--   Datasource.Records    datasource/base.py: FlowRecord and to_alert_dict
--   Datasource.Labels     datasource/dataset_replay.py: the loaders, over entries that are parsed
--   Datasource.Replay     the same file: _filter_by_scenario, read_alerts and the put of the thread
--   Datasource.Extractor  datasource/feature_extractor.py: the flows of the scapy backend, and in
--                         Extractor.Rows their features. A packet is what scapy reads of it, and a
--                         time is in milliseconds
--   Datasource.Labeling   the same file: the labels of a sidecar and extract_features; the rows of
--                         nfstream are an argument
--   Dashboard.Cache       dashboard/api/server.py: SummaryCache
--   Dashboard.Stream      the same file: the alerts that a round of the event stream sends
--   Prelude, Dict, Floats what these share: lists over native numbers, dictionaries, floats
--
-- A function keeps the name of the function it models, and a record the names of the attributes; a
-- method that several classes have is named after its class too (update_ddos, extract_recon). A
-- helper is a block of the function that its map entry names. The modules below a component hold
-- the proofs: Assembler.Table.Bounds for the size, Assembler.Table.Recency for the order of use and
-- so on.
--
-- Numbers. A time is a natural number of ticks, and a difference of two times that the code
-- compares is written as a sum on the other side: `now - last > ttl` is `last + ttl < now`. Floats
-- are the record Floats: a total order with the literals of the code, in hundredths. NaN is left
-- out, and no theorem here is about rounding. `hundredths` is an instance that computes. The
-- statistics of Features take their arithmetic from the record Numbers, of which nothing is
-- supposed.
--
-- Errors. An exception that the code does not catch is `none`, one that it catches is the branch it
-- goes to. Loops are structural recursion over the list that the code walks. The one on fuel is the
-- sampling of Datasource.Replay: its fuel is its target, as each round adds a record at least.
--
-- Parameters. dpkt and inet_ntop, the sessions of onnxruntime, Kafka's messages, the models of
-- scikit-learn and LightGBM, the calibrators, md5, str.upper, the order in which a set lists its
-- elements (IsSetOrder: each element once), and the clock. Where the answer of a model for a row
-- should not depend on other rows of the batch, the theorem says so (IsRowwise).
--
-- Messages of the worker with an explicit null under a key that it reads are left out.
--
-- Not modelled: the contents of the models on disk (what joblib and torch load from a path is a
-- parameter, Files), locks, sockets, the connections of the databases,
-- the routes of the dashboard, the loop of the replay, and the scripts that train, generate traffic
-- or measure. Of the threads, the producer of the pcap reader and the writer of the ClickHouse
-- store are steps of their own; the futures of the worker only have their results.
pub mod Prelude
pub mod Dict
pub mod Floats
pub mod Ingest
pub mod Parsers
pub mod Assembler
pub mod Features
pub mod Detectors
pub mod Alerting
pub mod Inference
pub mod Dashboard
pub mod Datasource
